-- ===== src/Token/Window.antt =====
-- How long a token of `signQueueToken` is accepted by `verifyQueueToken`.
use crowdtic.Base.{
  ℕ, ◌+◌, ◌/◌, ◌≤◌, ◌<◌, ◌≡◌, refl, ap, ◌≢◌, ◌↔◌, ◌⊎◌, String, is_blank, true, false, Option, none,
  some, arith, ok, get_or, ◌∙◌, List, eq_iff,
}
use crowdtic.Platform.{Platform}
use crowdtic.Token.Base64.{Crypto}
use crowdtic.Token.Claims.{num, str, Payload, claim, is_truthy}
use crowdtic.Token.Sign.{
  Grant, claims_of, seal, sign_queue_token, hmac_key, add_sec, number_or_null,
}
use crowdtic.Token.Verify.{
  valid, invalid, expired, VerifyOptions, check_claims, verify_queue_token, is_other,
}
use crowdtic.Token.Laws.{CryptoLaws, IsReadBack}
use crowdtic.Token.Accept.{verify_queue_token-seal}

-- The option asks for nothing, or for the value that the claim has.
abbrev pub Agrees : Option String → String → Type 0
Agrees want value = (want ≡ none) ⊎ (want ≡ some value)

abbrev pub issuer_of : Grant → String
issuer_of g = get_or g.issuer "tiket-waiting-room"

abbrev pub audience_of : Grant → String
audience_of g = get_or g.audience "tiket-checkout"

-- What a token must name to be accepted at all.
pub record IsComplete (g : Grant) (jti : String) : Type 0 where
  pub jti_given : jti ≢ ""
  pub user_given : g.user_id ≢ ""
  pub event_given : g.event_id ≢ ""

is_other-Agrees :
    (want : Option String) (value : String)
    → Agrees want value
    → is_other want (some (str value)) ≡ false
is_other-Agrees none value h = refl
is_other-Agrees (some s) value h = ground (arith, eq_iff s value, eq_iff s "")

str-is_truthy : (s : String) → s ≢ "" → is_truthy (some (str s)) ≡ true
str-is_truthy s h = ground (arith, eq_iff s "")

module _ (g : Grant) (now : ℕ) (jti : String) where
  claim-exp : claim "exp" (claims_of g now jti) ≡ some (number_or_null (add_sec now g.ttl_sec))
  unfolding claim claims_of
  claim-exp = refl

  claim-nbf : claim "nbf" (claims_of g now jti) ≡ some (num now)
  unfolding claim claims_of
  claim-nbf = refl

  claim-iss : claim "iss" (claims_of g now jti) ≡ some (str (issuer_of g))
  unfolding claim claims_of
  claim-iss = refl

  claim-aud : claim "aud" (claims_of g now jti) ≡ some (str (audience_of g))
  unfolding claim claims_of
  claim-aud = refl

  claim-jti : claim "jti" (claims_of g now jti) ≡ some (str jti)
  unfolding claim claims_of
  claim-jti = refl

  claim-user_id : claim "user_id" (claims_of g now jti) ≡ some (str g.user_id)
  unfolding claim claims_of
  claim-user_id = refl

  claim-event_id : claim "event_id" (claims_of g now jti) ≡ some (str g.event_id)
  unfolding claim claims_of
  claim-event_id = refl

  module _ (o : VerifyOptions) (later ttl : ℕ) where
    -- The verdict on the claims, where everything but the times is in order.
    check-claims_of :
        g.ttl_sec ≡ some ttl
        → IsComplete g jti
        → Agrees o.issuer (issuer_of g)
        → Agrees o.audience (audience_of g)
        → ((check_claims o later (claims_of g now jti) ≡ valid (claims_of g now jti))
            ↔ ((later ≤ now + ttl + o.leeway_sec) × (now ≤ later + o.leeway_sec)))
          × ((check_claims o later (claims_of g now jti) ≡ invalid expired)
              ↔ (now + ttl + o.leeway_sec < later))
    unfolding check_claims
    check-claims_of lasts full iss aud =
        rw
          (
            claim-exp,
            claim-nbf,
            claim-iss,
            claim-aud,
            claim-jti,
            claim-user_id,
            claim-event_id,
            lasts,
            is_other-Agrees o.issuer _ iss,
            is_other-Agrees o.audience _ aud,
            str-is_truthy jti full.jti_given,
            str-is_truthy g.user_id full.user_given,
            str-is_truthy g.event_id full.event_given,
          )
          ((ground arith, ground arith), (ground arith, ground arith))

-- The clock in seconds, as the next reading of it gives it.
abbrev pub second_of : {W : Type 0} → Platform W → W → ℕ
second_of p w = (p.date_now w).0 / 1000

-- The token id that the next signing draws.
abbrev pub jti_after : {W : Type 0} → Platform W → W → String
jti_after p w = (p.random_uuid (p.date_now w).1).0

-- The claims and the text of the token that the next signing makes.
abbrev pub claims_at : {W : Type 0} → Platform W → Grant → W → Payload
claims_at p g w = claims_of g (second_of p w) (jti_after p w)

abbrev pub token_at : {W : Type 0} → Crypto → Platform W → String → Grant → W → List ℕ
token_at c p secret g w = seal c secret (claims_at p g w)

module _ {W : Type 0} (c : Crypto) (p : Platform W) (laws : CryptoLaws c) where
  -- A token of `signQueueToken` that names a user, an event and a token id, signed with a secret that
  -- is not empty and verified with the same secret and with options that agree with its issuer and
  -- audience, is accepted exactly from `leeway` seconds before its signing to `leeway` seconds after
  -- its end, and is reported expired exactly after that. Signing itself succeeds.
  pub verify-sign_iff :
      (secret : String) (g : Grant) (ttl : ℕ) (o : VerifyOptions) (w later : W)
      → is_blank secret ≡ false
      → g.ttl_sec ≡ some ttl
      → IsComplete g (jti_after p w)
      → Agrees o.issuer (issuer_of g)
      → Agrees o.audience (audience_of g)
      → IsReadBack c (claims_at p g w)
      → ((sign_queue_token c p secret g w).0
          ≡ ok (record {
            token = token_at c p secret g w;
            jti = jti_after p w;
            exp = some (second_of p w + ttl);
          }))
        × (((verify_queue_token c p secret (token_at c p secret g w) o later).0
              ≡ ok (valid (claims_at p g w)))
            ↔ ((second_of p later ≤ second_of p w + ttl + o.leeway_sec)
                × (second_of p w ≤ second_of p later + o.leeway_sec)))
        × (((verify_queue_token c p secret (token_at c p secret g w) o later).0
              ≡ ok (invalid expired))
            ↔ (second_of p w + ttl + o.leeway_sec < second_of p later))
  unfolding sign_queue_token hmac_key
  verify-sign_iff secret g ttl o w later keyed lasts full iss aud back =
      let claims =
        check-claims_of g (second_of p w) (jti_after p w) o (second_of p later) ttl lasts full iss
          aud in
      let sealed = ap (λ r. r.0) (verify_queue_token-seal c p laws secret o _ later keyed back) in
      (
        rw (keyed, lasts) refl,
        (λ e. claims.0.0 (cc (e, sealed)), λ e. sealed ∙ ap ok (claims.0.1 e)),
        (λ e. claims.1.0 (cc (e, sealed)), λ e. sealed ∙ ap ok (claims.1.1 e)),
      )

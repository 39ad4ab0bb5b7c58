-- ===== src/Middleware/Accepts.antt =====
-- A token that the worker has signed, at the middleware.
use crowdtic.Base.{
  ℕ, ◌+◌, ◌≤◌, ◌≡◌, ◌≢◌, refl, ap, String, true, false, Option, none, some, ok, arith, get_or,
  is_blank, codes, ◌++◌, ◌∷◌, Bool-cases, inl, inr,
}
use crowdtic.Platform.{Platform}
use crowdtic.Token.Base64.{Crypto, b64url_encode}
use crowdtic.Token.Claims.{Json, Payload, num, str, claim}
use crowdtic.Token.Sign.{Grant, claims_of, seal, jwt_header}
use crowdtic.Token.Laws.{CryptoLaws, IsReadBack}
use crowdtic.Token.RoundTrip.{b64url_encode-IsUrl, b64url_round_trip}
use crowdtic.Token.Accept.{split_dots-seal_text, read_payload_lem}
use crowdtic.Token.Window.{issuer_of, audience_of, second_of, claims_at, token_at, jti_after}
use crowdtic.Middleware.Request.{NextRequest, ProcessEnv, extract_event_id, extract_token}
use crowdtic.Middleware.Enforce.{
  authenticated, pass_of, check_jti_allowlist, hmac_verify, hmac_parts, verify_signature, finish,
  after_claims, after_signature, with_token, middleware, middleware_secret, fits_headers,
}
use crowdtic.Middleware.Claims.{IsForRoute, IsAdmissible, check_token-eq-none_iff}

module _ {W : Type 0} (c : Crypto) (p : Platform W) (env : ProcessEnv) where
  after_claims_lem :
      (req : NextRequest) (token : String) (now : ℕ) (payload : Payload) (w : W)
      → (check_jti_allowlist c p env payload w).0 ≡ ok true
      → fits_headers p payload ≡ true
      → (after_claims c p env req token now payload none w).0
        ≡ ok (authenticated (pass_of req token now payload))
  unfolding after_claims finish
  after_claims_lem req token now payload w listed fits = rw (listed, fits) refl

  after_signature_lem :
      (req : NextRequest) (token : String) (payload : Payload) (w : W)
      → IsAdmissible env (extract_event_id req) (second_of p w) payload
      → (check_jti_allowlist c p env payload (p.date_now w).1).0 ≡ ok true
      → fits_headers p payload ≡ true
      → (after_signature c p env req token (some payload) w).0
        ≡ ok (authenticated (pass_of req token (second_of p w) payload))
  unfolding after_signature
  after_signature_lem req token payload w admissible listed fits =
      rw
        ((check_token-eq-none_iff env _ (extract_event_id req) (second_of p w) payload).1
          admissible)
        (after_claims_lem req token (second_of p w) payload _ listed fits)

  module _ (laws : CryptoLaws c) where
    hmac_verify-seal :
        (secret : String) (payload : Payload) (w : W)
        → IsReadBack c payload
        → hmac_verify c p env secret (seal c secret payload) w ≡ (ok (some payload), w)
    unfolding hmac_verify hmac_parts verify_signature seal
    hmac_verify-seal secret payload w back =
        let h = b64url_encode c (c.utf8 (c.print_json jwt_header)) in
        let b = b64url_encode c (c.utf8 (c.print_json payload)) in
        let signed = c.utf8 (h ++ b'.' ∷ b) in
        let sig = c.hmac_sign secret signed in
        let bytes = laws.hmac-AreBytes secret signed in
        rw
          (
            split_dots-seal_text h b (b64url_encode c sig)
                (b64url_encode-IsUrl c laws _ (laws.utf8-AreBytes (c.print_json jwt_header)))
                (b64url_encode-IsUrl c laws _ (laws.utf8-AreBytes (c.print_json payload)))
                (b64url_encode-IsUrl c laws sig bytes),
            b64url_round_trip c laws sig bytes,
            laws.verify-sign secret signed,
            read_payload_lem c p laws payload back,
          )
          refl

    pub middleware-seal :
        (req : NextRequest) (token : String) (payload : Payload) (w : W)
        → is_blank (middleware_secret c p env) ≡ false
        → extract_token req ≡ some token
        → is_blank token ≡ false
        → codes token ≡ seal c (middleware_secret c p env) payload
        → IsReadBack c payload
        → IsAdmissible env (extract_event_id req) (second_of p w) payload
        → (check_jti_allowlist c p env payload (p.date_now w).1).0 ≡ ok true
        → fits_headers p payload ≡ true
        → (middleware c p env req w).0
          ≡ ok (authenticated (pass_of req token (second_of p w) payload))
    unfolding middleware with_token
    middleware-seal req token payload w secret presented given sealed back admissible listed fits =
        rw (secret, presented, given, sealed, hmac_verify-seal _ payload w back)
          (after_signature_lem req token payload w admissible listed fits)

pub num_inj : (a b : ℕ) → ◌≡◌ {A = Option Json} (some (num a)) (some (num b)) → a ≡ b
num_inj a b e = cc

claims_of-IsAdmissible :
    (env : ProcessEnv) (route : Option String) (now issued ttl : ℕ) (g : Grant) (jti : String)
    → g.ttl_sec ≡ some ttl
    → now ≤ issued + ttl + 5
    → issued ≤ now + 5
    → issuer_of g ≡ get_or env.jwt_issuer "tiket-waiting-room"
    → audience_of g ≡ get_or env.jwt_audience "tiket-checkout"
    → g.user_id ≢ ""
    → g.event_id ≢ ""
    → IsForRoute route g.event_id
    → IsAdmissible env route now (claims_of g issued jti)
unfolding claim claims_of
claims_of-IsAdmissible env route now issued ttl g jti lasts before after iss aud user event routed =
    record {
      unexpired = λ e q.
          let k : ◌≡◌ {A = Option Json} (some (num (issued + ttl))) (some (num e)) =
            rw lasts at q in
          omega (arith, num_inj _ _ k);
      started = λ b q. omega (arith, num_inj _ _ q);
      issued = ap (λ s. some (str s)) iss;
      meant = ap (λ s. some (str s)) aud;
      event_given = event;
      user_given = user;
      routed = routed;
    }

module _ {W : Type 0} (p : Platform W) where
  claims_of-fits_headers :
      (issued : ℕ) (g : Grant) (jti : String)
      → p.is_header_value g.user_id ≡ true
      → p.is_header_value g.event_id ≡ true
      → p.is_header_value jti ≡ true
      → fits_headers p (claims_of g issued jti) ≡ true
  unfolding claim claims_of
  claims_of-fits_headers issued g jti user event id = elim (Bool-cases (is_blank jti)) [
    | inl bare ↦ rw (user, event, bare) refl
    | inr full ↦ rw (user, event, full, id) refl
  ]

module _ {W : Type 0} (c : Crypto) (p : Platform W) (env : ProcessEnv) (laws : CryptoLaws c) where
  -- A token that the worker signed for a user and an event is let through as
  -- authenticated at a request for that event, or for no named event, if it is presented at most 5
  -- seconds before its signing and at most 5 seconds after its end, the two sides share the secret,
  -- the issuer and the audience, the allowlist, if there is one and it answers, holds its id, and a
  -- header takes the ids of the user, of the event and of the token.
  pub middleware-sign_queue_token :
      (req : NextRequest) (token : String) (g : Grant) (ttl : ℕ) (signing w : W)
      → is_blank (middleware_secret c p env) ≡ false
      → extract_token req ≡ some token
      → is_blank token ≡ false
      → codes token ≡ token_at c p (middleware_secret c p env) g signing
      → IsReadBack c (claims_at p g signing)
      → g.ttl_sec ≡ some ttl
      → second_of p w ≤ second_of p signing + ttl + 5
      → second_of p signing ≤ second_of p w + 5
      → issuer_of g ≡ get_or env.jwt_issuer "tiket-waiting-room"
      → audience_of g ≡ get_or env.jwt_audience "tiket-checkout"
      → g.user_id ≢ ""
      → g.event_id ≢ ""
      → IsForRoute (extract_event_id req) g.event_id
      → (check_jti_allowlist c p env (claims_at p g signing) (p.date_now w).1).0 ≡ ok true
      → p.is_header_value g.user_id ≡ true
      → p.is_header_value g.event_id ≡ true
      → p.is_header_value (jti_after p signing) ≡ true
      → (middleware c p env req w).0
        ≡ ok (authenticated (pass_of req token (second_of p w) (claims_at p g signing)))
  middleware-sign_queue_token req token g ttl signing w secret presented given sealed back lasts
        before after iss aud user event routed listed latin_user latin_event latin_jti =
      middleware-seal c p env laws req token _ w secret presented given sealed back
        (claims_of-IsAdmissible env _ _ _ ttl g _ lasts before after iss aud user event routed)
        listed (claims_of-fits_headers p _ g _ latin_user latin_event latin_jti)

-- ===== src/Middleware/Safety.antt =====
-- What a request that the middleware lets through as authenticated has shown.
use crowdtic.Base.{
  ℕ, ◌/◌, ◌≡◌, refl, ap, ◌∙◌, ◌≢◌, inl, inr, String, Bool, true, false, Option, none, some, List,
  [], ◌∷◌, ◌++◌, arith, get_or, is_blank, codes, ok, Bool-cases, continue-ok,
}
use crowdtic.Platform.{Platform}
use crowdtic.Token.Base64.{Crypto, b64url_decode_to_bytes}
use crowdtic.Token.Claims.{Payload}
use crowdtic.Token.Split.{split_dots}
use crowdtic.Token.Verify.{read_payload}
use crowdtic.Middleware.Request.{NextRequest, ProcessEnv, extract_event_id, extract_token}
use crowdtic.Middleware.Enforce.{
  Answer, bypassed, authenticated, Pass, check_token, pass_of, check_jti_allowlist, hmac_verify,
  hmac_parts, verify_signature, fits_headers, finish, after_claims, after_signature, with_token,
  middleware_secret, middleware, refuse, Denial, Note,
}
use crowdtic.Middleware.Claims.{IsAdmissible, check_token-eq-none_iff}

-- The token's third part is the HMAC of the first two, and its second part is the payload.
pub record IsSigned (c : Crypto) (secret : String) (token : List ℕ) (payload : Payload)
    : Type 0 where
  pub header : List ℕ
  pub body : List ℕ
  pub seal : List ℕ
  pub signature : List ℕ
  pub parts : split_dots token ≡ header ∷ body ∷ seal ∷ []
  pub decoded : b64url_decode_to_bytes c seal ≡ some signature
  pub verified : c.hmac_verify secret signature (c.utf8 (header ++ b'.' ∷ body)) ≡ true
  pub read : read_payload c body ≡ some payload

module _ {W : Type 0} (c : Crypto) (p : Platform W) (env : ProcessEnv) where
  verify_signature-ok :
      (secret : String) (signed body : List ℕ) (o : Option (List ℕ)) (w : W) (payload : Payload)
      → (verify_signature c p env secret signed body o w).0 ≡ ok (some payload)
      → (sig : List ℕ) × (o ≡ some sig)
        × (c.hmac_verify secret sig (c.utf8 signed) ≡ true)
        × (read_payload c body ≡ some payload)
  unfolding verify_signature
  verify_signature-ok secret signed body none w payload h = cc
  verify_signature-ok secret signed body (some sig) w payload h =
      (sig, refl, ground arith, ground arith)

  hmac_parts-ok :
      (secret : String) (token : List ℕ) (parts : List (List ℕ)) (w : W) (payload : Payload)
      → split_dots token ≡ parts
      → (hmac_parts c p env secret parts w).0 ≡ ok (some payload)
      → IsSigned c secret token payload
  unfolding hmac_parts
  hmac_parts-ok secret token (h ∷ b ∷ s ∷ []) w payload e k =
      let (sig, decoded, verified, read) = verify_signature-ok secret _ b _ w payload k in
      record {
        header = h;
        body = b;
        seal = s;
        signature = sig;
        parts = e;
        decoded = decoded;
        verified = verified;
        read = read;
      }
  hmac_parts-ok secret token _ w payload e k = cc

  hmac_verify-IsSigned :
      (secret : String) (token : List ℕ) (w : W) (payload : Payload)
      → (hmac_verify c p env secret token w).0 ≡ ok (some payload)
      → IsSigned c secret token payload
  unfolding hmac_verify
  hmac_verify-IsSigned secret token w payload h = hmac_parts-ok secret token _ w payload refl h

  refuse-ne-authenticated :
      (api : Bool) (status : ℕ) (d : Denial) (e : Option String) (n : Note) (pass : Pass)
      → ok (refuse api status d e n) ≢ ok (authenticated pass)
  refuse-ne-authenticated true status d e n pass h = cc
  refuse-ne-authenticated false status d e n pass h = cc

  check_token-ne :
      (api : Bool) (route : Option String) (now : ℕ) (payload : Payload) (pass : Pass)
      → check_token env api route now payload ≢ some (authenticated pass)
  unfolding check_token
  check_token-ne true route now payload pass = ground arith
  check_token-ne false route now payload pass = ground arith

  finish-ok :
      (req : NextRequest) (token : String) (now : ℕ) (payload : Payload) (listed : Bool) (w : W)
      (pass : Pass)
      → (finish c p env req token now payload listed w).0 ≡ ok (authenticated pass)
      → (listed ≡ true) × (pass ≡ pass_of req token now payload)
  unfolding finish
  finish-ok req token now payload true w pass h = elim (Bool-cases (fits_headers p payload)) [
    | inl fits ↦ (refl, let k = rw fits at h in ground arith)
    | inr unfit ↦ absurd (let k = rw unfit at h in cc)
  ]
  finish-ok req token now payload false w pass h = absurd (refuse-ne-authenticated _ _ _ _ _ pass h)

  hmac_parts-world :
      (secret : String) (parts : List (List ℕ)) (w : W) → (hmac_parts c p env secret parts w).1 ≡ w
  unfolding hmac_parts verify_signature
  hmac_parts-world secret (h ∷ b ∷ s ∷ []) w = ground arith
  hmac_parts-world secret _ w = refl

  -- What an authenticated pass at world `w` rests on.
  pub record IsAdmitted (req : NextRequest) (w : W) (pass : Pass) : Type 0 where
    pub token : String
    pub payload : Payload
    pub presented : get_or (extract_token req) "" ≡ token
    pub given : is_blank token ≡ false
    pub signed : IsSigned c (middleware_secret c p env) (codes token) payload
    pub admissible : IsAdmissible env (extract_event_id req) ((p.date_now w).0 / 1000) payload
    pub listed : (check_jti_allowlist c p env payload (p.date_now w).1).0 ≡ ok true
    pub passed : pass ≡ pass_of req token ((p.date_now w).0 / 1000) payload

  after_claims-ok :
      (req : NextRequest) (token : String) (now : ℕ) (payload : Payload) (o : Option Answer) (w : W)
      (pass : Pass)
      → o ≢ some (authenticated pass)
      → (after_claims c p env req token now payload o w).0 ≡ ok (authenticated pass)
      → (o ≡ none)
        × ((check_jti_allowlist c p env payload w).0 ≡ ok true)
        × (pass ≡ pass_of req token now payload)
  unfolding after_claims
  after_claims-ok req token now payload (some a) w pass ne h = absurd (ne (cc h))
  after_claims-ok req token now payload none w pass ne h =
      let (listed, e, k) =
        continue-ok _ _ (finish c p env req token now payload) {b = authenticated pass} h in
      let (t, q) = finish-ok req token now payload listed _ pass k in (refl, e ∙ ap ok t, q)

  after_signature-ok :
      (req : NextRequest) (token : String) (o : Option Payload) (w : W) (pass : Pass)
      → (after_signature c p env req token o w).0 ≡ ok (authenticated pass)
      → (payload : Payload) × (o ≡ some payload)
        × IsAdmissible env (extract_event_id req) ((p.date_now w).0 / 1000) payload
        × ((check_jti_allowlist c p env payload (p.date_now w).1).0 ≡ ok true)
        × (pass ≡ pass_of req token ((p.date_now w).0 / 1000) payload)
  unfolding after_signature
  after_signature-ok req token none w pass h = absurd (refuse-ne-authenticated _ _ _ _ _ pass h)
  after_signature-ok req token (some payload) w pass h =
      let (clear, listed, q) =
        after_claims-ok req token _ payload _ _ pass (check_token-ne _ _ _ payload pass) h in
      (payload, refl, (check_token-eq-none_iff env _ _ _ payload).0 clear, listed, q)

  -- `hmac_verify` leaves the world as it was.
  hmac_verify-world :
      (secret : String) (token : List ℕ) (w : W) → (hmac_verify c p env secret token w).1 ≡ w
  unfolding hmac_verify
  hmac_verify-world secret token w = hmac_parts-world secret (split_dots token) w

  with_token-ok :
      (req : NextRequest) (token : String) (w : W) (pass : Pass)
      → get_or (extract_token req) "" ≡ token
      → (with_token c p env req token w).0 ≡ ok (authenticated pass)
      → IsAdmitted req w pass
  unfolding with_token
  with_token-ok req token w pass e h = elim (Bool-cases (is_blank token)) [
    | inl blank ↦ absurd (refuse-ne-authenticated _ _ _ _ _ pass (rw blank at h))
    | inr given ↦
        let k = rw given at h in
        let (o, verified, rest) =
          continue-ok _ _ (after_signature c p env req token) {b = authenticated pass} k in
        let (payload, q, admissible, listed, passed) =
          after_signature-ok req token o w pass (rw (hmac_verify-world _ _ w) at rest) in
        record {
          token = token;
          payload = payload;
          presented = e;
          given = given;
          signed = hmac_verify-IsSigned _ (codes token) w payload (verified ∙ ap ok q);
          admissible = admissible;
          listed = listed;
          passed = passed;
        }
  ]

  -- A request that the middleware lets through as authenticated, with a secret configured, has
  -- presented a token that is signed with the secret, whose claims are admissible for the route at
  -- that second, and whose id the allowlist, if there is one and it answers, still holds; the
  -- headers and the cookie passed on are those of the token's claims.
  pub middleware-IsAdmitted :
      (req : NextRequest) (w : W) (pass : Pass)
      → (middleware c p env req w).0 ≡ ok (authenticated pass)
      → IsAdmitted req w pass
  unfolding middleware
  middleware-IsAdmitted req w pass h = elim (Bool-cases (is_blank (middleware_secret c p env))) [
    | inl blank ↦ let k : ok bypassed ≡ ok (authenticated pass) = rw blank at h in cc
    | inr given ↦ with_token-ok req _ w pass refl (rw given at h)
  ]

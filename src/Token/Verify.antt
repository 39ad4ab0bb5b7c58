-- ===== src/Token/Verify.antt =====
-- `verifyQueueToken`.
use crowdtic.Base.{
  ℕ, ◌+◌, ◌/◌, String, Bool, false, ◌||◌, ◌&&◌, not, Option, none, some, List, [], ◌∷◌, ◌++◌, ltb,
  if◌then◌else◌, M, pure, fail, ◌>>=◌, ◌>>◌, lift, str_eq,
}
use crowdtic.Platform.{Platform}
use crowdtic.Token.Base64.{Crypto, b64url_decode_to_bytes}
use crowdtic.Token.Claims.{Json, num, Payload, claim, is_truthy, is_text}
use crowdtic.Token.Split.{split_dots}
use crowdtic.Token.Sign.{hmac_key}

pub data Reason : Type 0 where
  malformed bad_signature bad_payload expired not_yet_valid bad_iss bad_aud missing_claims : Reason

pub data Verdict : Type 0 where
  valid : Payload → Verdict
  invalid : Reason → Verdict

pub record VerifyOptions : Type 0 where
  pub issuer : Option String
  pub audience : Option String
  pub leeway_sec : ℕ

-- No `opts` given.
abbrev pub no_options : VerifyOptions
no_options = record { issuer = none; audience = none; leeway_sec = 5 }

-- `typeof exp === "number" && now > exp + leeway`
abbrev pub is_past : ℕ → ℕ → Option Json → Bool
is_past now leeway (some (num exp)) = ltb (exp + leeway) now
is_past now leeway _ = false

-- `typeof nbf === "number" && now + leeway < nbf`
abbrev pub is_early : ℕ → ℕ → Option Json → Bool
is_early now leeway (some (num nbf)) = ltb (now + leeway) nbf
is_early now leeway _ = false

-- `opts?.issuer && payload.iss !== opts.issuer`
abbrev pub is_other : Option String → Option Json → Bool
is_other none claim = false
is_other (some want) claim = not (str_eq want "") && not (is_text want claim)

-- The checks on the claims, made at the second `now`.
unfoldable pub check_claims : VerifyOptions → ℕ → Payload → Verdict
check_claims o now payload =
    if is_past now o.leeway_sec (claim "exp" payload)
    then invalid expired
    else if is_early now o.leeway_sec (claim "nbf" payload)
    then invalid not_yet_valid
    else if is_other o.issuer (claim "iss" payload)
    then invalid bad_iss
    else if is_other o.audience (claim "aud" payload)
    then invalid bad_aud
    else if not (is_truthy (claim "jti" payload))
        || not (is_truthy (claim "user_id" payload))
        || not (is_truthy (claim "event_id" payload))
    then invalid missing_claims
    else valid payload

-- Reading a field of null, or a method of what has none.
abbrev pub type_error : String
type_error = "TypeError"

abbrev pub invalid_base64 : String
invalid_base64 = "InvalidCharacterError"

-- `JSON.parse(decode(p))` under its `try`, which catches what `atob` throws too.
abbrev pub parse_decoded : Crypto → Option (List ℕ) → Option Payload
parse_decoded c none = none
parse_decoded c (some bytes) = c.parse_json (c.utf8_decode bytes)

abbrev pub read_payload : Crypto → List ℕ → Option Payload
read_payload c p = parse_decoded c (b64url_decode_to_bytes c p)

-- The payload was parsed, to null.
abbrev pub is_null_payload : Crypto → Option (List ℕ) → Option Payload → Bool
is_null_payload c none _ = false
is_null_payload c (some bytes) (some payload) = false
is_null_payload c (some bytes) none = c.is_null (c.utf8_decode bytes)

module _ {W : Type 0} (c : Crypto) (p : Platform W) where
  unfoldable pub check_payload : VerifyOptions → Option Payload → M W Verdict
  check_payload o none = pure (invalid bad_payload)
  check_payload o (some payload) = do
    now_ms ← lift p.date_now
    pure (check_claims o (now_ms / 1000) payload)

  -- From the decoded signature on; `none` is the throw of `atob`, outside the `try`.
  unfoldable pub verify_signed :
      String → VerifyOptions → List ℕ → List ℕ → Option (List ℕ) → M W Verdict
  unfolding check_payload
  verify_signed secret o signed body none = fail invalid_base64
  verify_signed secret o signed body (some sig) =
      if c.hmac_verify secret sig (c.utf8 signed)
      then (if is_null_payload c (b64url_decode_to_bytes c body) (read_payload c body)
          then (do _ ← lift p.date_now; fail type_error)
          else check_payload o (read_payload c body))
      else pure (invalid bad_signature)

  unfoldable pub verify_parts : String → VerifyOptions → List (List ℕ) → M W Verdict
  unfolding verify_signed hmac_key
  verify_parts secret o (h ∷ body ∷ s ∷ []) = do
    hmac_key secret
    verify_signed secret o (h ++ b'.' ∷ body) body (b64url_decode_to_bytes c s)
  verify_parts secret o _ = pure (invalid malformed)

  unfoldable pub verify_queue_token : String → List ℕ → VerifyOptions → M W Verdict
  unfolding verify_parts
  verify_queue_token secret token o = verify_parts secret o (split_dots token)

-- ===== src/Middleware/Enforce.antt =====
-- `hmacVerify`, `checkJtiAllowlist` and `middleware` of edge/middleware.ts.
use Prim.Native.String
use crowdtic.Base.{
  ℕ, ◌-◌, ◌/◌, String, Bool, true, false, not, ◌&&◌, ◌||◌, Option, none, some, List, [], ◌∷◌, ◌++◌,
  max, if◌then◌else◌, get_or, M, pure, fail, ◌>>=◌, lift, is_blank, str_eq, codes,
}
use crowdtic.Platform.{Platform, jti_key, word, key, Http, replied, refused, unreachable, nil}
use crowdtic.Env.{is_set}
use crowdtic.Token.Base64.{Crypto, b64url_decode_to_bytes}
use crowdtic.Token.Claims.{Json, num, str, Payload, claim, is_text}
use crowdtic.Token.Split.{split_dots}
use crowdtic.Token.Verify.{is_past, is_early, read_payload, invalid_base64}
use crowdtic.Middleware.Request.{
  NextRequest, ProcessEnv, is_api_request, coalesce, extract_event_id, extract_token,
}

abbrev pub jwt_leeway_sec : ℕ
jwt_leeway_sec = 5

-- The `error` of a JSON answer.
pub data Denial : Type 0 where
  token_required invalid_token token_expired token_not_yet_valid bad_iss bad_aud missing_claims
        event_mismatch replayed_or_expired :
      Denial

-- What the redirect's query says beside the event.
pub data Note : Type 0 where
  next : String → Note
  bad_token_note expired_note mismatch_note consumed_note : Note

-- The headers and the cookie of a request that goes on: the cookie's token and its age.
pub record Pass : Type 0 where
  pub user_id : String
  pub event_id : String
  pub jti : Option Json
  pub cookie : Option (String × ℕ)
  pub cleans_url : Bool

pub data Answer : Type 0 where
  bypassed : Answer
  denied : ℕ → Denial → Answer
  redirected : Option String → Note → Answer
  authenticated : Pass → Answer

-- `(payload.event_id as string | undefined) ?? null`; ids are texts or absent.
abbrev pub text_claim : Option Json → String
text_claim (some (str s)) = s
text_claim _ = ""

-- JSON for an API request, otherwise a redirect to the waiting room.
abbrev pub refuse : Bool → ℕ → Denial → Option String → Note → Answer
refuse true status d event note = denied status d
refuse false status d event note = redirected event note

-- `eventIdFromRoute && tokenEventId !== eventIdFromRoute`
abbrev pub is_mismatch : Option String → String → Bool
is_mismatch none event = false
is_mismatch (some route) event = not (is_blank route) && not (str_eq event route)

-- The checks on the claims, in their order; `none` lets the token through.
unfoldable pub check_token : ProcessEnv → Bool → Option String → ℕ → Payload → Option Answer
check_token env api route now payload =
    if is_past now jwt_leeway_sec (claim "exp" payload)
    then some (refuse api 401 token_expired route expired_note)
    else if is_early now jwt_leeway_sec (claim "nbf" payload)
    then some (denied 401 token_not_yet_valid)
    else if not (is_text (get_or env.jwt_issuer "tiket-waiting-room") (claim "iss" payload))
    then some (denied 401 bad_iss)
    else if not (is_text (get_or env.jwt_audience "tiket-checkout") (claim "aud" payload))
    then some (denied 401 bad_aud)
    else if is_blank (text_claim (claim "event_id" payload))
        || is_blank (text_claim (claim "user_id" payload))
    then some (denied 401 missing_claims)
    else if is_mismatch route (text_claim (claim "event_id" payload))
    then some (refuse api 403 event_mismatch route mismatch_note)
    else none

-- `Math.max(5, exp - nowSec)`, or 45 with no `exp`.
abbrev max_age : ℕ → Option Json → ℕ
max_age now (some (num exp)) = max 5 (exp - now)
max_age now _ = 45

abbrev has_value : Option String → Bool
has_value none = false
has_value (some s) = true

unfoldable pub pass_of : NextRequest → String → ℕ → Payload → Pass
pass_of req token now payload = record {
  user_id = text_claim (claim "user_id" payload);
  event_id = text_claim (claim "event_id" payload);
  jti = claim "jti" payload;
  cookie =
      if is_set (req.cookie "queue_token")
      then none
      else some (token, max_age now (claim "exp" payload));
  cleans_url = has_value (req.query "queue_token") || has_value (req.query "token");
}

-- `res.ok` and `j.result === null` of the allowlist's read; errors let the token through.
abbrev pub is_listed : Http → Bool
is_listed (replied nil) = false
is_listed (replied r) = true
is_listed (refused status body) = true
is_listed (unreachable e) = true

-- `if (payload.jti) res.headers.set("x-queue-jti", String(payload.jti))`
abbrev pub fits_header : {W : Type 0} → Platform W → Option Json → Bool
fits_header p (some (str s)) = is_blank s || p.is_header_value s
fits_header p _ = true

-- The headers are set: the user, the event and the token's id.
abbrev pub fits_headers : {W : Type 0} → Platform W → Payload → Bool
fits_headers p payload =
    p.is_header_value (text_claim (claim "user_id" payload))
    && p.is_header_value (text_claim (claim "event_id" payload))
    && fits_header p (claim "jti" payload)

module _ {W : Type 0} (c : Crypto) (p : Platform W) (env : ProcessEnv) where
  unfoldable pub check_jti_allowlist : Payload → M W Bool
  check_jti_allowlist payload w =
      let event = text_claim (claim "event_id" payload) in
      let jti = text_claim (claim "jti" payload) in
      let url = get_or env.upstash_redis_rest_url "" in
      let token = get_or env.upstash_redis_rest_token "" in
      if is_blank url || is_blank token
      then pure true w
      else if is_blank event || is_blank jti
      then pure true w
      else (let (h, w') = p.fetch_redis url token (word "GET" ∷ key (jti_key event jti) ∷ []) w in
          pure (is_listed h) w')

  -- From the decoded signature on; `none` is the throw of `atob`.
  unfoldable pub verify_signature :
      String → List ℕ → List ℕ → Option (List ℕ) → M W (Option Payload)
  verify_signature secret signed body none = fail invalid_base64
  verify_signature secret signed body (some sig) =
      if c.hmac_verify secret sig (c.utf8 signed) then pure (read_payload c body) else pure none

  unfoldable pub hmac_parts : String → List (List ℕ) → M W (Option Payload)
  unfolding verify_signature
  hmac_parts secret (h ∷ body ∷ s ∷ []) =
      verify_signature secret (h ++ b'.' ∷ body) body (b64url_decode_to_bytes c s)
  hmac_parts secret _ = pure none

  unfoldable pub hmac_verify : String → List ℕ → M W (Option Payload)
  unfolding hmac_parts
  hmac_verify secret token = hmac_parts secret (split_dots token)

  unfoldable pub finish : NextRequest → String → ℕ → Payload → Bool → M W Answer
  finish req token now payload true =
      if fits_headers p payload
      then pure (authenticated (pass_of req token now payload))
      else fail "TypeError"
  finish req token now payload false =
      pure
        (refuse (is_api_request req) 401 replayed_or_expired (extract_event_id req) consumed_note)

  unfoldable pub after_claims : NextRequest → String → ℕ → Payload → Option Answer → M W Answer
  unfolding finish
  after_claims req token now payload (some answer) = pure answer
  after_claims req token now payload none = do
    listed ← check_jti_allowlist payload
    finish req token now payload listed

  unfoldable pub after_signature : NextRequest → String → Option Payload → M W Answer
  unfolding after_claims
  after_signature req token none =
      pure (refuse (is_api_request req) 401 invalid_token (extract_event_id req) bad_token_note)
  after_signature req token (some payload) = do
    now_ms ← lift p.date_now
    after_claims req token (now_ms / 1000) payload
        (check_token env (is_api_request req) (extract_event_id req) (now_ms / 1000) payload)

  abbrev pub middleware_secret : String
  middleware_secret = get_or (coalesce env.jwt_secret env.queue_jwt_secret) ""

  unfoldable pub with_token : NextRequest → String → M W Answer
  unfolding after_signature
  with_token req token =
      if is_blank token
      then pure (
          refuse (is_api_request req) 401 token_required (extract_event_id req)
            (next (String.◌++◌ req.pathname req.search)))
      else (do
        payload ← hmac_verify middleware_secret (codes token)
        after_signature req token payload)

  unfoldable pub middleware : NextRequest → M W Answer
  unfolding with_token
  middleware req =
      if is_blank middleware_secret
      then pure bypassed
      else with_token req (get_or (extract_token req) "")

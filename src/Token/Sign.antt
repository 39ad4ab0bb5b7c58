-- ===== src/Token/Sign.antt =====
-- `signQueueToken`.
use crowdtic.Base.{
  ℕ, ◌+◌, ◌/◌, String, Option, none, some, List, [], ◌∷◌, ◌++◌, get_or, M, pure, fail, ◌>>=◌, ◌>>◌,
  lift, is_blank, if◌then◌else◌,
}
use crowdtic.Platform.{Platform}
use crowdtic.Token.Base64.{Crypto, b64url_encode}
use crowdtic.Token.Claims.{Json, null, num, str, Payload}

-- The second argument of `signQueueToken`; `ttl_sec` is a number, and `none` is NaN.
pub record Grant : Type 0 where
  pub user_id : String
  pub event_id : String
  pub ttl_sec : Option ℕ
  pub issuer : Option String
  pub audience : Option String

pub record Signed : Type 0 where
  pub token : List ℕ
  pub jti : String
  pub exp : Option ℕ

-- `now + ttl` in seconds, where `none` is NaN.
abbrev pub add_sec : ℕ → Option ℕ → Option ℕ
add_sec now none = none
add_sec now (some ttl) = some (now + ttl)

abbrev pub number_or_null : Option ℕ → Json
number_or_null none = null
number_or_null (some n) = num n

-- The claims of a new token. `JSON.stringify` writes a NaN as null.
unfoldable pub claims_of : Grant → ℕ → String → Payload
claims_of g now jti =
    ("iss", str (get_or g.issuer "tiket-waiting-room"))
    ∷ ("aud", str (get_or g.audience "tiket-checkout"))
    ∷ ("iat", num now)
    ∷ ("exp", number_or_null (add_sec now g.ttl_sec))
    ∷ ("nbf", num now)
    ∷ ("jti", str jti)
    ∷ ("user_id", str g.user_id)
    ∷ ("event_id", str g.event_id)
    ∷ []

abbrev pub jwt_header : Payload
jwt_header = ("alg", str "HS256") ∷ ("typ", str "JWT") ∷ []

-- The text `${encHeader}.${encPayload}.${signature}` over given claims.
unfoldable pub seal : Crypto → String → Payload → List ℕ
seal c secret payload =
    let enc_header = b64url_encode c (c.utf8 (c.print_json jwt_header)) in
    let enc_payload = b64url_encode c (c.utf8 (c.print_json payload)) in
    let signed = enc_header ++ b'.' ∷ enc_payload in
    signed ++ b'.' ∷ b64url_encode c (c.hmac_sign secret (c.utf8 signed))

-- `hmacKey`: `importKey` throws on an empty key.
unfoldable pub hmac_key : {W : Type 0} → String → M W (Unit {0})
hmac_key secret = if is_blank secret then fail "DataError" else pure tt

module _ {W : Type 0} (c : Crypto) (p : Platform W) where
  unfoldable pub sign_queue_token : String → Grant → M W Signed
  unfolding hmac_key
  sign_queue_token secret g = do
    now_ms ← lift p.date_now
    jti ← lift p.random_uuid
    let now = now_ms / 1000
    hmac_key secret
    pure (record {
      token = seal c secret (claims_of g now jti);
      jti = jti;
      exp = add_sec now g.ttl_sec;
    })

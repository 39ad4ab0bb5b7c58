-- ===== src/Room/Told/Calm.antt =====
-- Verifying a token and drawing an id change nothing in Redis.
use crowdtic.Base.{
  is_blank, if◌then◌else◌, lift, fail, ◌>>=◌, ℕ, ◌≡◌, inl, inr, refl, ◌∙◌, String, Option, none,
  some, List, [], ◌∷◌, Bool-cases,
}
use crowdtic.Platform.{Platform}
use crowdtic.Token.Base64.{Crypto, b64url_decode_to_bytes}
use crowdtic.Token.Sign.{hmac_key}
use crowdtic.Token.Claims.{Payload}
use crowdtic.Token.Verify.{
  verify_queue_token, verify_parts, verify_signed, check_payload, is_null_payload, read_payload,
  type_error, VerifyOptions,
}
use crowdtic.Room.Status.{}
use crowdtic.Room.Lined.{LineLaws}

module _ {W : Type 0} {p : Platform W} {url token : String} (redis : LineLaws p url token) where
  -- Redis holds the same before and after.
  pub record IsCalm (w w' : W) : Type 0 where
    pub members : redis.members w' ≡ redis.members w
    pub value : redis.value w' ≡ redis.value w

  pub IsCalm-refl : (w : W) → IsCalm w w
  IsCalm-refl w = record { members = refl; value = refl }

  clock-IsCalm : (w : W) → IsCalm w (p.date_now w).1
  clock-IsCalm w = record { members = redis.members-date_now w; value = redis.value-date_now w }

  pub drawn-IsCalm : (w : W) → IsCalm w (p.random_uuid (p.date_now w).1).1
  drawn-IsCalm w = record {
    members = redis.members-random_uuid (p.date_now w).1 ∙ redis.members-date_now w;
    value = redis.value-random_uuid (p.date_now w).1 ∙ redis.value-date_now w;
  }

  pub IsCalm-trans : {w w' w'' : W} → IsCalm w w' → IsCalm w' w'' → IsCalm w w''
  IsCalm-trans a b = record { members = b.members ∙ a.members; value = b.value ∙ a.value }

module _ {W : Type 0} (c : Crypto) {p : Platform W} {url token : String}
    (redis : LineLaws p url token) where
  check_payload-IsCalm :
      (o : VerifyOptions) (payload : Option Payload) (w : W)
      → IsCalm redis w (check_payload c p o payload w).1
  unfolding check_payload
  check_payload-IsCalm o none w = IsCalm-refl redis w
  check_payload-IsCalm o (some payload) w = clock-IsCalm redis w

  payload-IsCalm :
      (o : VerifyOptions) (body : List ℕ) (w : W)
      → IsCalm redis w
          ((if is_null_payload c (b64url_decode_to_bytes c body) (read_payload c body)
              then (do _ ← lift p.date_now; fail type_error)
              else check_payload c p o (read_payload c body))
            w).1
  payload-IsCalm o body w =
      elim (Bool-cases (is_null_payload c (b64url_decode_to_bytes c body) (read_payload c body))) [
        | inl null ↦ rw null (clock-IsCalm redis w)
        | inr e ↦ rw e (check_payload-IsCalm o _ w)
      ]

  verify_signed-IsCalm :
      (secret : String) (o : VerifyOptions) (signed body : List ℕ) (sig : Option (List ℕ)) (w : W)
      → IsCalm redis w (verify_signed c p secret o signed body sig w).1
  unfolding verify_signed
  verify_signed-IsCalm secret o signed body none w = IsCalm-refl redis w
  verify_signed-IsCalm secret o signed body (some sig) w =
      elim (Bool-cases (c.hmac_verify secret sig (c.utf8 signed))) [
        | inl e ↦ rw e (payload-IsCalm o body w)
        | inr e ↦ rw e (IsCalm-refl redis w)
      ]

  verify_parts-IsCalm :
      (secret : String) (o : VerifyOptions) (parts : List (List ℕ)) (w : W)
      → IsCalm redis w (verify_parts c p secret o parts w).1
  unfolding verify_parts hmac_key
  verify_parts-IsCalm secret o (h ∷ b ∷ s ∷ []) w = elim (Bool-cases (is_blank secret)) [
    | inl keyless ↦ rw keyless (IsCalm-refl redis w)
    | inr keyed ↦ rw keyed (verify_signed-IsCalm secret o _ b _ w)
  ]
  verify_parts-IsCalm secret o _ w = IsCalm-refl redis w

  -- A verification reads the clock at most.
  pub verify_queue_token-IsCalm :
      (secret : String) (o : VerifyOptions) (token : List ℕ) (w : W)
      → IsCalm redis w (verify_queue_token c p secret token o w).1
  unfolding verify_queue_token
  verify_queue_token-IsCalm secret o token w = verify_parts-IsCalm secret o _ w

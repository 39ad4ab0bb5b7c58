-- ===== src/Storefront/Join.antt =====
-- `signDevQueueToken`, `joinQueue` and the token that the page keeps.
pub mod Forged
use Prim.Native.String
use crowdtic.Base.{
  ℕ, ◌+◌, ◌/◌, String, Option, none, some, List, [], ◌∷◌, get_or, is_empty, is_blank, if◌then◌else◌,
}
use crowdtic.Token.Base64.{Crypto}
use crowdtic.Token.Claims.{num, str, Payload}
use crowdtic.Token.Sign.{seal}
use crowdtic.Storefront.State.{nothing, answered, fallback, Home}
use crowdtic.Storefront.Browser.{Browser, JoinRequest, JoinAnswer, unreachable, refused, joined}

abbrev pub dev_secret : String
dev_secret = "dev-only-32chars-super-secret-jwt!!"

abbrev pub dev_ttl_sec : ℕ
dev_ttl_sec = 600

unfoldable pub dev_claims : String → String → ℕ → String → Payload
dev_claims user_id event_id now jti =
    ("iss", str "tiket-waiting-room")
    ∷ ("aud", str "tiket-checkout")
    ∷ ("iat", num now)
    ∷ ("nbf", num now)
    ∷ ("exp", num (now + dev_ttl_sec))
    ∷ ("jti", str jti)
    ∷ ("user_id", str user_id)
    ∷ ("event_id", str event_id)
    ∷ []

-- `setErr("")`
unfoldable pub join_start : Home → Home
join_start h = record h { err = nothing }

module _ {W : Type 0} (b : Browser W) where
  -- `localStorage.getItem("tiket_user_id") || crypto.randomUUID()`, and its `setItem`.
  unfoldable pub user_of : W → String × W
  user_of w =
      if is_blank (get_or (b.stored_user w) "")
      then (let (id, w') = b.random_uuid w in (id, b.store_user id w'))
      else (get_or (b.stored_user w) "", b.store_user (get_or (b.stored_user w) "") w)

  -- `localStorage.setItem("queue_token", t)` and `setToken(t)`
  unfoldable pub keep_token : List ℕ → Home → W → Home × W
  keep_token t h w = (record h { token = t }, b.store_token t w)

  abbrev pub join_request : String → String → String → JoinRequest
  join_request event_id user_id text = record {
    event_id = event_id;
    user_id = user_id;
    fingerprint = String.◌++◌ "web-" (String.◌++◌ b.user_agent (String.◌++◌ "-" text));
  }

  -- The token that a former visit has left, and the CLEAR TOKEN button.
  unfoldable pub load_token : Home → W → Home
  load_token h w =
      if is_empty (get_or (b.stored_token w) [])
      then h
      else record h { token = get_or (b.stored_token w) [] }

  unfoldable pub clear_token : Home → W → Home × W
  clear_token h w = (record h { token = []; queue = none }, b.drop_token w)

module _ {W : Type 0} (c : Crypto) (b : Browser W) where
  unfoldable pub sign_dev_queue_token : String → String → W → List ℕ × W
  sign_dev_queue_token user_id event_id w =
      let (now_ms, w₁) = b.date_now w in
      let (jti, w₂) = b.random_uuid w₁ in
      (seal c dev_secret (dev_claims user_id event_id (now_ms / 1000) jti), w₂)

  unfoldable pub fall_back : String → String → Home → W → Home × W
  unfolding sign_dev_queue_token keep_token
  fall_back event_id user_id h w =
      let (t, w') = sign_dev_queue_token user_id event_id w in
      keep_token b t (record h { queue = some (fallback t) }) w'

  -- What `joinQueue` does with the worker's answer, for the event that was selected at the click.
  unfoldable pub join_done : String → String → JoinAnswer → Home → W → Home × W
  unfolding fall_back keep_token
  join_done event_id user_id unreachable h w = fall_back event_id user_id h w
  join_done event_id user_id (refused status) h w = fall_back event_id user_id h w
  join_done event_id user_id (joined j none) h w = (record h { queue = some (answered j) }, w)
  join_done event_id user_id (joined j (some t)) h w =
      if is_empty t
      then (record h { queue = some (answered j) }, w)
      else keep_token b t (record h { queue = some (answered j) }) w

  unfoldable pub join_queue : Home → W → Home × W
  unfolding user_of join_start join_done
  join_queue h w =
      let (user_id, w₁) = user_of b w in
      let (text, w₂) = b.random_text w₁ in
      let (answer, w₃) = b.post_join (join_request b h.selected user_id text) w₂ in
      join_done h.selected user_id answer (join_start h) w₃

-- ===== src/Room/Guards.antt =====
-- What a handler asks before it touches a queue: `verifyTurnstile` and `getEventMeta`.
use crowdtic.Base.{
  ℕ, String, ◌||◌, Option, none, some, [], ◌∷◌, if◌then◌else◌, get_or, M, pure, ◌>>=◌, try_catch,
  str_eq, is_blank,
}
use crowdtic.Platform.{
  Platform, Value, meta, SiteVerify, Reply, hash, word, key, meta_key, waiting_room_kv,
}
use crowdtic.Env.{Env, is_set}
use crowdtic.Redis.{enabled, cmd}
use Prim.Native.String

pub data Check : Type 0 where
  passed : Check
  failed : Option String → Check

-- `(j["error-codes"] ?? []).join(",") || "turnstile_failed"`
abbrev pub of_site_verify : SiteVerify → Check
of_site_verify r =
    if r.success
    then passed
    else if is_blank r.error_codes
    then failed (some "turnstile_failed")
    else failed (some r.error_codes)

abbrev pub as_on_sale : Option Value → Option String
as_on_sale (some (meta t)) = t
as_on_sale _ = none

abbrev pub hash_on_sale : Reply → Option String
hash_on_sale (hash t) = t
hash_on_sale _ = none

module _ {W : Type 0} (p : Platform W) (env : Env) where
  unfoldable pub verify_turnstile : Option String → String → M W Check
  verify_turnstile token ip =
      if is_blank (get_or token "")
      then (if is_set env.turnstile_secret_key
          then pure (failed (some "missing_turnstile_token"))
          else pure passed)
      else if str_eq (get_or token "") "TEST_BYPASS" || str_eq (get_or token "") "bypass"
      then pure passed
      else if is_set env.turnstile_secret_key
      then try_catch
          (do
            r ← p.fetch_site_verify (get_or env.turnstile_secret_key "") (get_or token "") ip
            pure (of_site_verify r))
          (λ e. pure (failed (some (String.◌++◌ "turnstile_error:" e))))
      else pure passed

  -- `if (on_sale_at) { t = Date.parse(on_sale_at); if (!isNaN(t)) return t }`
  abbrev pub sale_time : Option String → Option ℕ
  sale_time none = none
  sale_time (some t) = if is_blank t then none else p.date_parse t

  unfoldable pub redis_sale_time : String → M W (Option ℕ)
  redis_sale_time event_id =
      if enabled env
      then try_catch
          (do
            hm ← cmd p env (word "HGETALL" ∷ key (meta_key event_id) ∷ [])
            pure (sale_time (hash_on_sale hm)))
          (λ _. pure none)
      else pure none

  unfoldable pub kv_sale_time : String → Option ℕ → M W (Option ℕ)
  kv_sale_time event_id (some t) = pure (some t)
  kv_sale_time event_id none = do
    kv_meta ← p.kv_get waiting_room_kv (meta_key event_id)
    pure (sale_time (as_on_sale kv_meta))

  -- The field `on_sale_at` of the result.
  unfoldable pub get_event_meta : String → M W (Option ℕ)
  unfolding redis_sale_time kv_sale_time
  get_event_meta event_id = do found ← redis_sale_time event_id; kv_sale_time event_id found

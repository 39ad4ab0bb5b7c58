-- ===== src/Bucket/Consume.antt =====
-- `tokenBucketConsume`: the stored state is read, stepped and written back on both branches.
use crowdtic.Base.{
  ℕ, String, Option, none, some, [], ◌∷◌, if◌then◌else◌, M, pure, ◌>>=◌, ◌>>◌, lift, try_catch,
}
use crowdtic.Platform.{
  Platform, BucketState, Value, bucket, Key, bucket_key, waiting_room_kv, word, key, stored, count,
}
use crowdtic.Env.{Env, setting, default_rate_per_sec}
use crowdtic.Redis.{enabled, cmd, as_stored}
use crowdtic.Bucket.Step.{Decision, bucket_step}

abbrev pub as_bucket : Option Value → Option BucketState
as_bucket (some (bucket b)) = some b
as_bucket _ = none

module _ {W : Type 0} (p : Platform W) (env : Env) where
  unfoldable pub load_bucket : Key → M W (Option BucketState)
  load_bucket k =
      if enabled env
      then try_catch
          (do reply ← cmd p env (word "GET" ∷ key k ∷ []); pure (as_bucket (as_stored reply)))
          (λ _. pure none)
      else (do raw ← p.kv_get waiting_room_kv k; pure (as_bucket raw))

  unfoldable pub save_bucket : Key → BucketState → M W (Unit {0})
  save_bucket k next =
      if enabled env
      then (do
        _ ← cmd p env (word "SET" ∷ key k ∷ stored (bucket next) ∷ word "EX" ∷ count 120 ∷ [])
        pure tt)
      else p.kv_put waiting_room_kv k (bucket next) (some 120)

  unfoldable pub token_bucket_consume : String → ℕ → M W Decision
  unfolding load_bucket save_bucket
  token_bucket_consume event_id need = do
    now ← lift p.date_now
    state ← load_bucket (bucket_key event_id)
    let rate = setting env.admission_rate_per_sec default_rate_per_sec
    save_bucket (bucket_key event_id) (bucket_step rate need now state).1
    pure (bucket_step rate need now state).0

-- ===== src/Bucket/Spent.antt =====
-- What a series of calls of `tokenBucketConsume` lets through, without Redis.
use crowdtic.Base.{
  arith, ℕ, ◌+◌, ◌-◌, ◌*◌, ◌≤◌, ◌≡◌, refl, ap, sym, subst, String, false, some, List, [], ◌∷◌,
  Outcome, ok, throw,
}
use crowdtic.Platform.{Platform, BucketState, bucket, bucket_key, waiting_room_kv}
use crowdtic.Env.{Env, setting, default_rate_per_sec}
use crowdtic.Redis.{enabled}
use crowdtic.Bucket.Step.{Decision, bucket_step}
use crowdtic.Bucket.Consume.{as_bucket, load_bucket, save_bucket, token_bucket_consume}
use crowdtic.Bucket.Rate.{run, run-le-rate, passed, held, InOrder, end_of}
use crowdtic.Room.Store.{KvLaws, value_at}

-- What a call for `need` tokens has let through.
abbrev pub granted : ℕ → Outcome Decision → ℕ
granted need (ok d) = passed d need
granted need (throw e) = 0

module _ {W : Type 0} {p : Platform W} (kv : KvLaws p) (env : Env) (event_id : String) where
  -- The calls, one after the other, for these numbers of tokens.
  pub spent : List ℕ → W → ℕ
  spent [] w = 0
  spent (need ∷ needs) w =
      granted need (token_bucket_consume p env event_id need w).0
      + spent needs (token_bucket_consume p env event_id need w).1

  -- The same calls with the times at which they read the clock.
  unfoldable pub calls_of : List ℕ → W → List (ℕ × ℕ)
  calls_of [] w = []
  calls_of (need ∷ needs) w =
      ((p.date_now w).0, need) ∷ calls_of needs (token_bucket_consume p env event_id need w).1

  module _ (off : enabled env ≡ false) (rate : ℕ)
      (set : setting env.admission_rate_per_sec default_rate_per_sec ≡ some rate) where
    consume_lem :
        (need : ℕ) (s : BucketState) (w : W)
        → as_bucket (value_at kv w (bucket_key event_id)) ≡ some s
        → token_bucket_consume p env event_id need w ≡ (
          ok (bucket_step (some rate) need (p.date_now w).0 (some s)).0,
          kv.put waiting_room_kv
              (bucket_key event_id)
              (bucket (bucket_step (some rate) need (p.date_now w).0 (some s)).1)
              (p.date_now w).1,
        )
    unfolding token_bucket_consume load_bucket save_bucket
    consume_lem need s w e =
        rw
          (
            off,
            kv.kv_get_lem,
            kv.lookup-date_now w,
            e,
            set,
            kv.kv_put_for _ _ _ 120 _ (omega arith),
          )
          refl

    spent-run :
        (needs : List ℕ) (s : BucketState) (w : W)
        → as_bucket (value_at kv w (bucket_key event_id)) ≡ some s
        → spent needs w ≡ (run rate (calls_of needs w) s).0
    unfolding spent calls_of run
    spent-run [] s w e = refl
    spent-run (need ∷ needs) s w e =
        let t = (bucket_step (some rate) need (p.date_now w).0 (some s)).1 in
        let rest = spent-run needs t _ (
          ap as_bucket (
            kv.lookup-put_self waiting_room_kv (bucket_key event_id) (bucket t)
              (p.date_now w).1)) in
        rw (consume_lem need s w e) (
          ap (λ n. passed (bucket_step (some rate) need (p.date_now w).0 (some s)).0 need + n) rest)

    -- Without Redis, with a readable rate, and from a stored state of at most a full bucket, a series
    -- of calls of one event during which the clock does not go back lets through at most `rate`
    -- tokens, and `rate` for each second from the stored time to the last call.
    pub spent-le-rate :
        (needs : List ℕ) (s : BucketState) (w : W)
        → as_bucket (value_at kv w (bucket_key event_id)) ≡ some s
        → InOrder s.last_ms (calls_of needs w)
        → held s ≤ 1000 * rate
        → 1000 * spent needs w
          ≤ 1000 * rate + (end_of s.last_ms (calls_of needs w) - s.last_ms) * rate
    spent-le-rate needs s w e order full =
        subst
          (λ n. 1000 * n ≤ 1000 * rate + (end_of s.last_ms (calls_of needs w) - s.last_ms) * rate)
          (sym (spent-run needs s w e)) (run-le-rate rate (calls_of needs w) s order full)

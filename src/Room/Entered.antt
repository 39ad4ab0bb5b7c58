-- ===== src/Room/Entered.antt =====
-- What a join leaves behind with Redis.
use crowdtic.Base.{
  ℕ, String, ◌≡◌, ◌≢◌, inl, inr, refl, ◌∙◌, ap, Bool, true, false, Bool-cases, not, ◌||◌, Option,
  none, some, [], ◌∷◌, ok, ltb, arith, ◌+◌, if◌then◌else◌,
}
use crowdtic.Platform.{Platform, Key, pool_key, active_key, waiting_index, word, key, score, int}
use crowdtic.Env.{Env}
use crowdtic.Redis.{enabled, cmd}
use crowdtic.Room.Queue.{ms}
use crowdtic.Room.Join.{Place, join_redis, redis_active, redis_pool}
use crowdtic.Room.Sets.{RedisLaws, url_of, token_of, cmd_lem}

module _ {W : Type 0} {p : Platform W} (env : Env) (on : enabled env ≡ true)
    (redis : RedisLaws p (url_of env) (token_of env)) (event_id user_id : String) where
  abbrev pub pool_score : W → String → Option ℕ
  pool_score w v = redis.score_of w (pool_key event_id) v

  abbrev pub active_score : W → String → Option ℕ
  active_score w v = redis.score_of w (active_key event_id) v

  zadd_ok :
      (k : Key) (s : ℕ) (m : String) (w : W)
      → cmd p env (word "ZADD" ∷ key k ∷ score s ∷ word m ∷ []) w
        ≡ (ok (int (redis.zadd_lem k s m w).0), redis.zadd k s m w)
  zadd_ok k s m w = cmd_lem p env on _ _ w _ (redis.zadd_lem k s m w).1

  zrem_ok :
      (k : Key) (m : String) (w : W)
      → cmd p env (word "ZREM" ∷ key k ∷ word m ∷ []) w
        ≡ (ok (int (redis.zrem_lem k m w).0), redis.zrem k m w)
  zrem_ok k m w = cmd_lem p env on _ _ w _ (redis.zrem_lem k m w).1

  sadd_ok :
      (k : Key) (m : String) (w : W)
      → cmd p env (word "SADD" ∷ key k ∷ word m ∷ []) w
        ≡ (ok (int (redis.sadd_lem k m w).0), redis.sadd k m w)
  sadd_ok k m w = cmd_lem p env on _ _ w _ (redis.sadd_lem k m w).1

  zcard_ok :
      (k : Key) (w : W)
      → cmd p env (word "ZCARD" ∷ key k ∷ []) w ≡ (ok (int (redis.card_of w k)), w)
  zcard_ok k w = cmd_lem p env on _ _ w w (redis.zcard_lem k w)

  zrank_ok :
      (k : Key) (m : String) (w : W)
      → cmd p env (word "ZRANK" ∷ key k ∷ word m ∷ []) w ≡ (ok (redis.rank_of w k m), w)
  zrank_ok k m w = cmd_lem p env on _ _ w w (redis.zrank_lem k m w)

  redis_active_lem :
      (s : ℕ) (w : W)
      → (place : Place) × redis_active p env event_id user_id s w ≡ (
        ok place,
        redis.zrem (pool_key event_id) user_id (redis.zadd (active_key event_id) s user_id w),
      )
  unfolding redis_active
  redis_active_lem s w =
      rw
        (
          zadd_ok (active_key event_id) s user_id w,
          zrem_ok (pool_key event_id) user_id (redis.zadd (active_key event_id) s user_id w),
          zcard_ok (active_key event_id) (
              redis.zrem (pool_key event_id) user_id
                (redis.zadd (active_key event_id) s user_id w)),
          zrank_ok (active_key event_id) user_id (
              redis.zrem (pool_key event_id) user_id
                (redis.zadd (active_key event_id) s user_id w)),
        )
        (_, refl)

  redis_pool_lem :
      (s : ℕ) (w : W)
      → (place : Place) × redis_pool p env event_id user_id s w
          ≡ (ok place, redis.zadd (pool_key event_id) s user_id w)
  unfolding redis_pool
  redis_pool_lem s w =
      rw
        (
          zadd_ok (pool_key event_id) s user_id w,
          zcard_ok (pool_key event_id) (redis.zadd (pool_key event_id) s user_id w),
          zrank_ok (pool_key event_id) user_id (redis.zadd (pool_key event_id) s user_id w),
        )
        (_, refl)

  -- Everybody else stands where they stood.
  pub record IsOthersKept (before after : W) : Type 0 where
    pub in_pool : (v : String) → user_id ≢ v → pool_score after v ≡ pool_score before v
    pub in_active : (v : String) → user_id ≢ v → active_score after v ≡ active_score before v

  -- Where a join leaves the user, with `n` in the active queue.
  pub data IsEntered (pre : Bool) (now s n : ℕ) (before after : W) : Type 0 where
    in_active :
        ltb 0 n || not pre ≡ true
        → active_score after user_id ≡ some (if ltb 0 n then ms (now + n) else s)
        → pool_score after user_id ≡ none
        → IsOthersKept before after
        → IsEntered pre now s n before after
    in_pool :
        ltb 0 n || not pre ≡ false
        → pool_score after user_id ≡ some s
        → active_score after user_id ≡ none
        → IsOthersKept before after
        → IsEntered pre now s n before after

  active-ne-pool : active_key event_id ≢ pool_key event_id
  active-ne-pool e = cc

  active_worlds :
      (pre : Bool) (now s n : ℕ) (w : W)
      → ltb 0 n || not pre ≡ true
      → IsEntered pre now s n w (
          redis.zrem
            (pool_key event_id)
            user_id
            (redis.zadd (active_key event_id) (if ltb 0 n then ms (now + n) else s) user_id w))
  active_worlds pre now s n w now_active =
      let t = if ltb 0 n then ms (now + n) else s in
      let w' = redis.zadd (active_key event_id) t user_id w in
      in_active now_active
        (redis.score-zrem_other (pool_key event_id) (active_key event_id) user_id user_id w'
            (inl (λ e. cc))
          ∙ redis.score-zadd_self (active_key event_id) t user_id w)
        (redis.score-zrem_self (pool_key event_id) user_id w')
        (record {
          in_pool = λ v ne.
              redis.score-zrem_other (pool_key event_id) (pool_key event_id) user_id v w' (inr ne)
              ∙ redis.score-zadd_other (active_key event_id) (pool_key event_id) t user_id v w
                  (inr ne);
          in_active = λ v ne.
              redis.score-zrem_other (pool_key event_id) (active_key event_id) user_id v w' (inr ne)
              ∙ redis.score-zadd_other (active_key event_id) (active_key event_id) t user_id v w
                  (inr ne);
        })

  pool_world :
      (pre : Bool) (now s n : ℕ) (w : W)
      → ltb 0 n || not pre ≡ false
      → active_score w user_id ≡ none
      → IsEntered pre now s n w (redis.zadd (pool_key event_id) s user_id w)
  pool_world pre now s n w pooled nobody =
      in_pool pooled (redis.score-zadd_self (pool_key event_id) s user_id w)
        (redis.score-zadd_other (pool_key event_id) (active_key event_id) s user_id user_id w
            (inl (λ e. cc))
          ∙ nobody)
        (record {
          in_pool = λ v ne.
              redis.score-zadd_other (pool_key event_id) (pool_key event_id) s user_id v w (inr ne);
          in_active = λ v ne.
              redis.score-zadd_other (pool_key event_id) (active_key event_id) s user_id v w
                (inr ne);
        })

  -- The index of waiting events is no queue.
  IsOthersKept-sadd :
      (w after : W)
      → IsOthersKept (redis.sadd waiting_index event_id w) after
      → IsOthersKept w after
  IsOthersKept-sadd w after h = record {
    in_pool = λ v ne.
        h.in_pool v ne
        ∙ ap (λ f. f (pool_key event_id) v) (redis.score-sadd waiting_index event_id w);
    in_active = λ v ne.
        h.in_active v ne
        ∙ ap (λ f. f (active_key event_id) v) (redis.score-sadd waiting_index event_id w);
  }

  IsEntered-sadd :
      {pre : Bool} {now s n : ℕ} {w after : W}
      → IsEntered pre now s n (redis.sadd waiting_index event_id w) after
      → IsEntered pre now s n w after
  IsEntered-sadd (in_active e a b h) = in_active e a b (IsOthersKept-sadd _ _ h)
  IsEntered-sadd (in_pool e a b h) = in_pool e a b (IsOthersKept-sadd _ _ h)

  -- With Redis, a join returns a place and leaves the user in one of the two sets: in the active
  -- queue if that has members or the sale has begun, with a new score in any case, which is the time
  -- and the length of the queue if it has members; in the pool otherwise, with the score drawn.
  -- Everybody else stands where they stood.
  pub join_redis-IsEntered :
      (pre : Bool) (now s : ℕ) (w : W)
      → (place : Place) × (join_redis p env event_id user_id pre now s w).0 ≡ ok place
        × IsEntered pre now s
            (redis.card_of w (active_key event_id))
            w
            (join_redis p env event_id user_id pre now s w).1
  unfolding join_redis
  join_redis-IsEntered pre now s w =
      let w₁ = redis.sadd waiting_index event_id w in
      let n = redis.card_of w (active_key event_id) in
      let same : redis.card_of w₁ (active_key event_id) ≡ n =
        ap (λ f. f (active_key event_id)) (redis.card-sadd waiting_index event_id w) in
      rw (sadd_ok waiting_index event_id w, zcard_ok (active_key event_id) w₁, same)
        (elim (Bool-cases (ltb 0 n || not pre)) [
          | inl now_active ↦
              rw (now_active, (redis_active_lem (if ltb 0 n then ms (now + n) else s) w₁).1)
                (_, refl, IsEntered-sadd (active_worlds pre now s n w₁ now_active))
          | inr pooled ↦
              rw (pooled, (redis_pool_lem s w₁).1)
                (
                  _,
                  refl,
                  IsEntered-sadd (
                      pool_world pre now s n w₁ pooled (
                        redis.score-card (active_key event_id) user_id w₁
                          (same ∙ ground (arith, pooled)))),
                )
        ])

-- ===== src/Room/Apart.antt =====
-- Series of joins with Redis: no user is in both sets.
use crowdtic.Base.{
  ℕ, String, ◌≡◌, ◌≢◌, ◌⊎◌, inl, inr, subst, ◌∙◌, Bool, true, Bool-cases, none, str_eq, eq_iff,
}
use crowdtic.Platform.{Platform, Key, pool_key, active_key}
use crowdtic.Env.{Env}
use crowdtic.Redis.{enabled}
use crowdtic.Room.Join.{join_redis}
use crowdtic.Room.Sets.{RedisLaws, url_of, token_of}
use crowdtic.Room.Entered.{IsOthersKept, IsEntered, in_active, in_pool, join_redis-IsEntered}

module _ {W : Type 0} {p : Platform W} (env : Env) (on : enabled env ≡ true)
    (redis : RedisLaws p (url_of env) (token_of env)) (event_id : String) where
  -- A user is outside the pool or outside the active queue.
  abbrev pub IsApart : W → Type 0
  IsApart w =
      (v : String)
      → (redis.score_of w (pool_key event_id) v ≡ none)
        ⊎ (redis.score_of w (active_key event_id) v ≡ none)

  -- Some members may have left, as by an admission; nothing else has changed.
  abbrev pub IsLess : W → W → Type 0
  IsLess w w' =
      (k : Key) (v : String)
      → (redis.score_of w' k v ≡ none) ⊎ (redis.score_of w' k v ≡ redis.score_of w k v)

  less-none :
      {w w' : W} (k : Key) (v : String)
      → IsLess w w'
      → redis.score_of w k v ≡ none
      → redis.score_of w' k v ≡ none
  less-none k v less e = elim (less k v) [ inl gone ↦ gone | inr same ↦ same ∙ e ]

  IsLess-IsApart : {w w' : W} → IsApart w → IsLess w w' → IsApart w'
  IsLess-IsApart apart less v = elim (apart v) [
    | inl e ↦ inl (less-none (pool_key event_id) v less e)
    | inr e ↦ inr (less-none (active_key event_id) v less e)
  ]

  -- Joins of the event, of any users, before or after the start of the sale, and in between
  -- anything that at most removes members.
  pub data Joins (start : W) : W → Type 0 where
    none_yet : Joins start start
    then_one :
        (user_id : String) (pre : Bool) (now s : ℕ) {w : W}
        → Joins start w
        → Joins start (join_redis p env event_id user_id pre now s w).1
    then_less : {w w' : W} → Joins start w → IsLess w w' → Joins start w'

  IsOthersKept-IsApart :
      (user_id v : String) (w w' : W)
      → IsApart w
      → user_id ≢ v
      → IsOthersKept env on redis event_id user_id w w'
      → (redis.score_of w' (pool_key event_id) v ≡ none)
        ⊎ (redis.score_of w' (active_key event_id) v ≡ none)
  IsOthersKept-IsApart user_id v w w' apart ne kept = elim (apart v) [
    | inl e ↦ inl (kept.in_pool v ne ∙ e)
    | inr e ↦ inr (kept.in_active v ne ∙ e)
  ]

  entered_one :
      (user_id : String) {pre : Bool} {now s n : ℕ} {w w' : W}
      → IsEntered env on redis event_id user_id pre now s n w w'
      → (redis.score_of w' (pool_key event_id) user_id ≡ none)
        ⊎ (redis.score_of w' (active_key event_id) user_id ≡ none)
  entered_one user_id (in_active e a none_in_pool kept) = inl none_in_pool
  entered_one user_id (in_pool e a none_in_active kept) = inr none_in_active

  entered_other :
      (user_id v : String) {pre : Bool} {now s n : ℕ} (w w' : W)
      → IsApart w
      → user_id ≢ v
      → IsEntered env on redis event_id user_id pre now s n w w'
      → (redis.score_of w' (pool_key event_id) v ≡ none)
        ⊎ (redis.score_of w' (active_key event_id) v ≡ none)
  entered_other user_id v w w' apart ne (in_active e a b kept) =
      IsOthersKept-IsApart user_id v w w' apart ne kept
  entered_other user_id v w w' apart ne (in_pool e a b kept) =
      IsOthersKept-IsApart user_id v w w' apart ne kept

  IsEntered-IsApart :
      (user_id : String) {pre : Bool} {now s n : ℕ} {w w' : W}
      → IsApart w
      → IsEntered env on redis event_id user_id pre now s n w w'
      → IsApart w'
  IsEntered-IsApart user_id {w} {w'} apart entered v = elim (Bool-cases (str_eq user_id v)) [
    | inl same ↦
        subst
          (λ (x : String).
            (redis.score_of w' (pool_key event_id) x ≡ none)
            ⊎ (redis.score_of w' (active_key event_id) x ≡ none))
          ((eq_iff user_id v).0 same) (entered_one user_id entered)
    | inr other ↦
        entered_other user_id v w w' apart (λ e. cc (other, (eq_iff user_id v).1 e)) entered
  ]

  -- With Redis, if no user is in both sets, then no series of joins of the event, with removals of
  -- members between them, leads to a user who is.
  pub Joins-IsApart : (start : W) {w : W} → IsApart start → Joins start w → IsApart w
  Joins-IsApart start apart none_yet = apart
  Joins-IsApart start apart (then_one user_id pre now s run) =
      IsEntered-IsApart user_id (Joins-IsApart start apart run)
        (join_redis-IsEntered env on redis event_id user_id pre now s _).2
  Joins-IsApart start apart (then_less run less) =
      IsLess-IsApart (Joins-IsApart start apart run) less

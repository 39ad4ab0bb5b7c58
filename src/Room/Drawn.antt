-- ===== src/Room/Drawn.antt =====
-- The step from the pool to the active queue at T-0, with Redis.
mod Adds
use mathlib.Core.List.Perm
use mathlib.Core.List.{Nodup, Nodup-cons, Mem, mem-cons_self, mem-cons_of_mem, append-nil}
use crowdtic.Base.{
  ℕ, zero, suc, ◌+◌, ◌-◌, ◌<◌, ◌≡◌, ◌≢◌, ◌⊎◌, inl, inr, refl, ap, ◌∙◌, sym, subst, String, Bool,
  true, false, some, List, [], ◌∷◌, ◌++◌, length, All, All-append, Outcome, ok, arith, ltb, ◌==◌,
  is_empty, Perm,
}
use crowdtic.Platform.{
  Platform, Key, number, pool_key, active_key, admitted_key, Arg, word, key, score, count, stored,
  Reply, array, int,
}
use crowdtic.Env.{Env}
use crowdtic.Redis.{enabled, cmd, pipeline, of_http}
use crowdtic.RateLimit.{counter}
use crowdtic.Shuffle.{random_unit, shuffle_from, shuffle_in_place}
use crowdtic.Shuffle.Perm.{shuffle_in_place-perm}
use crowdtic.Room.Queue.{ms}
use crowdtic.Room.Pool.{maybe_shuffle_pool, shuffle_redis, members_of, zadds}
use crowdtic.Room.Sets.{url_of, token_of, cmd_lem}
use crowdtic.Room.Lined.{Line, line_names, names_reply, run, LineLaws, PoolLaws}
use crowdtic.Room.Drawn.Adds.{members_of-names_reply, run-append, run-zadds, no_length, some_length}

module _ {W : Type 0} {p : Platform W} (env : Env) (on : enabled env ≡ true)
    (redis : LineLaws p (url_of env) (token_of env))
    (pool : PoolLaws p (url_of env) (token_of env) redis) (event_id : String) where
  abbrev pool_line : W → Line
  pool_line w = redis.members w (pool_key event_id)

  abbrev active_line : W → Line
  active_line w = redis.members w (active_key event_id)

  shuffle-members :
      (n : ℕ) (a : List String) (w : W) → redis.members (shuffle_from p n a w).1 ≡ redis.members w
  unfolding shuffle_from
  shuffle-members zero a w = refl
  shuffle-members (suc n) a w = shuffle-members n _ (p.math_random w).1 ∙ pool.members-math_random w

  -- What the step has done: nothing, or the line of the pool is the active line, in the order of a
  -- shuffle, and the pool is empty.
  pub data IsDrawn (w : W) (r : Outcome Bool × W) : Type 0 where
    kept : (pool_line w ≡ []) ⊎ (active_line w ≢ []) → r ≡ (ok false, w) → IsDrawn w r
    drawn :
        pool_line w ≢ []
        → active_line w ≡ []
        → r.0 ≡ ok true
        → line_names (active_line r.1) ≡ (shuffle_in_place p (line_names (pool_line w)) w).0
        → Perm (line_names (active_line r.1)) (line_names (pool_line w))
        → pool_line r.1 ≡ []
        → counter (redis.value r.1 (admitted_key event_id)) ≡ some 0
        → IsDrawn w r

  zcard_ok :
      (k : Key) (w : W)
      → cmd p env (word "ZCARD" ∷ key k ∷ []) w ≡ (ok (int (length (redis.members w k))), w)
  zcard_ok k w = cmd_lem p env on _ _ w w (pool.zcard_lem k w)

  zrange_ok :
      (k : Key) (w : W)
      → cmd p env (word "ZRANGE" ∷ key k ∷ word "0" ∷ word "-1" ∷ []) w
        ≡ (ok (array (names_reply (redis.members w k))), w)
  zrange_ok k w = cmd_lem p env on _ _ w w (pool.zrange_lem k w)

  pipeline_ok :
      (batch : List (List Arg)) (w : W)
      → (r : Reply) × pipeline p env batch w ≡ (ok r, run p (url_of env) (token_of env) batch w)
  unfolding pipeline of_http
  pipeline_ok batch w = let (r, e) = pool.pipeline_lem batch w in (r, rw (on, e) refl)

  nobody_waits : (w : W) → pool_line w ≡ [] → maybe_shuffle_pool p env event_id w ≡ (ok false, w)
  unfolding maybe_shuffle_pool shuffle_redis
  nobody_waits w e =
      rw (on, zcard_ok (pool_key event_id) w, zcard_ok (active_key event_id) w, e) refl

  somebody_queues :
      (w : W) (x y : String × ℕ) (xs ys : Line)
      → pool_line w ≡ x ∷ xs
      → active_line w ≡ y ∷ ys
      → maybe_shuffle_pool p env event_id w ≡ (ok false, w)
  unfolding maybe_shuffle_pool shuffle_redis
  somebody_queues w x y xs ys e f =
      rw
        (
          on,
          zcard_ok (pool_key event_id) w,
          zcard_ok (active_key event_id) w,
          e,
          f,
          no_length (length xs),
          some_length (length ys),
        )
        refl

  -- The shuffle of the line of the pool, the clock after it, and the commands that are sent.
  abbrev dealt : W → List String × W
  dealt w = shuffle_in_place p (line_names (pool_line w)) w

  abbrev read_clock : W → ℕ × W
  read_clock w = p.date_now (dealt w).1

  abbrev finish_batch : List (List Arg)
  finish_batch =
      (word "DEL" ∷ key (pool_key event_id) ∷ [])
      ∷ (word "SET" ∷ key (admitted_key event_id) ∷ stored (number 0) ∷ word "EX" ∷ count 3600 ∷ [])
      ∷ []

  abbrev new_line : W → List (List Arg)
  new_line w = zadds (active_key event_id) (read_clock w).0 (dealt w).0

  abbrev after_adds : W → W
  after_adds w = run p (url_of env) (token_of env) (new_line w) (read_clock w).1

  abbrev after_all : W → W
  after_all w =
      redis.set (admitted_key event_id) (number 0) 3600
        (pool.del (pool_key event_id) (after_adds w))

  dealt-members : (w : W) → redis.members (dealt w).1 ≡ redis.members w
  unfolding shuffle_in_place
  dealt-members w =
      shuffle-members (length (line_names (pool_line w)) - 1) (line_names (pool_line w)) w

  run-finish_batch :
      (w : W)
      → run p (url_of env) (token_of env) finish_batch w
        ≡ redis.set (admitted_key event_id) (number 0) 3600 (pool.del (pool_key event_id) w)
  unfolding run
  run-finish_batch w =
      ap
        (λ r.
          (p.fetch_redis (url_of env) (token_of env)
            (word "SET"
              ∷ key (admitted_key event_id)
              ∷ stored (number 0)
              ∷ word "EX"
              ∷ count 3600
              ∷ [])
            r.1).1)
        (pool.del_lem (pool_key event_id) w).1
      ∙ ap (λ r. r.1)
          (redis.set_lem (admitted_key event_id) (number 0) 3600 (pool.del (pool_key event_id) w)
            (omega arith)).1

  moved_lem :
      (w : W) (x : String × ℕ) (xs : Line)
      → pool_line w ≡ x ∷ xs
      → active_line w ≡ []
      → maybe_shuffle_pool p env event_id w ≡ (ok true, after_all w)
  unfolding maybe_shuffle_pool shuffle_redis
  moved_lem w x xs e f =
      let waiting : length (pool_line w) ≡ suc (length xs) = ap length e in
      let nobody : length (active_line w) ≡ 0 = ap length f in
      let full : is_empty (line_names (pool_line w)) ≡ false =
        ap (λ l. is_empty (line_names l)) e in
      let sent = (pipeline_ok (new_line w ++ finish_batch) (read_clock w).1).1 in
      let ran =
        run-append p (url_of env) (token_of env) (new_line w) finish_batch (read_clock w).1
        ∙ run-finish_batch (after_adds w) in
      rw
        (
          on,
          zcard_ok (pool_key event_id) w,
          zcard_ok (active_key event_id) w,
          waiting,
          nobody,
          no_length (length xs),
          zrange_ok (pool_key event_id) w,
          members_of-names_reply (pool_line w),
          full,
          sent,
          ran,
        )
        refl

  moved-IsDrawn :
      (w : W) (x : String × ℕ) (xs : Line)
      → pool_line w ≡ x ∷ xs
      → active_line w ≡ []
      → Nodup (line_names (pool_line w))
      → IsDrawn w (ok true, after_all w)
  moved-IsDrawn w x xs e f apart =
      let calm : redis.members (read_clock w).1 ≡ redis.members w =
        redis.members-date_now (dealt w).1 ∙ dealt-members w in
      let started = ap (λ g. g (active_key event_id)) calm ∙ f in
      let perm = shuffle_in_place-perm p (line_names (pool_line w)) w in
      let (names, others) =
        run-zadds redis pool (active_key event_id) (read_clock w).0 (dealt w).0 (read_clock w).1
          (Perm.nodup (Perm.symm perm) apart) (rw started tt) in
      let lined : line_names (active_line (after_all w)) ≡ (dealt w).0 =
        ap line_names (
          redis.members-set (admitted_key event_id) (active_key event_id) _ 3600 _ (λ e. cc)
          ∙ pool.members-del_other (pool_key event_id) (active_key event_id) _ (λ e. cc))
        ∙ names
        ∙ ap (λ l. line_names l ++ (dealt w).0) started in
      drawn (λ none. cc (e, none)) f refl lined (rw lined perm)
        (redis.members-set (admitted_key event_id) (pool_key event_id) _ 3600 _ (λ e. cc)
          ∙ pool.members-del_self (pool_key event_id) (after_adds w))
        (ap counter (
          redis.value-set_self (admitted_key event_id) (number 0) 3600
            (pool.del (pool_key event_id) (after_adds w))))

  drawn_at :
      (w : W) (l : Line)
      → pool_line w ≡ l
      → (a : Line) → active_line w ≡ a
      → Nodup (line_names (pool_line w))
      → IsDrawn w (maybe_shuffle_pool p env event_id w)
  drawn_at w [] e a f apart = kept (inl e) (nobody_waits w e)
  drawn_at w (x ∷ xs) e [] f apart = rw (moved_lem w x xs e f) (moved-IsDrawn w x xs e f apart)
  drawn_at w (x ∷ xs) e (y ∷ ys) f apart =
      kept (inr (λ none. cc (f, none))) (somebody_queues w x y xs ys e f)

  -- With Redis, the step to the sale changes nothing if the pool is empty or the active set is not.
  -- Otherwise, if nobody is in the pool twice, the members of the active set become those of the
  -- pool, in the order of the shuffle, whatever the random numbers are; the pool becomes empty and
  -- the watermark 0.
  pub maybe_shuffle_pool-IsDrawn :
      (w : W) → Nodup (line_names (pool_line w)) → IsDrawn w (maybe_shuffle_pool p env event_id w)
  maybe_shuffle_pool-IsDrawn w = drawn_at w (pool_line w) refl (active_line w) refl

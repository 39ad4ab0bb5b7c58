-- ===== src/Room/Reach.antt =====
-- Which queues an event can come to, without Redis: joins, admissions, shuffles and whatever leaves
-- its two queues alone, in any order.
use mathlib.Core.List.Perm
use mathlib.Core.List.{foldr}
use crowdtic.Base.{
  ◌≢◌, ℕ, ◌+◌, ◌≤◌, ◌≡◌, refl, ap, ◌∙◌, sym, inl, inr, String, Bool, false, List, [], ◌∷◌, ◌++◌,
  arith, is_empty, Bool-cases, Perm, take-append-drop, str_eq, eq_iff, Outcome,
}
use crowdtic.Platform.{Platform, Entry, pool_key, active_key}
use crowdtic.Env.{Env}
use crowdtic.Redis.{enabled}
use crowdtic.Room.Queue.{sort_entries}
use crowdtic.Room.Join.{Place, join_kv}
use crowdtic.Room.Pool.{maybe_shuffle_pool, names}
use crowdtic.Room.Admit.{pop_users}
use crowdtic.Room.Seats.{count, one_for, count-sort_entries}
use crowdtic.Room.Popped.{popped, kept, pop_users-IsFair}
use crowdtic.Room.Moved.{maybe_shuffle_pool-moves, maybe_shuffle_pool-keeps}
use crowdtic.Room.Joined.{OneSeat, IsJoined, join_kv-IsJoined}
use crowdtic.Room.Store.{KvLaws, queue_at}

count-append :
    (user : String) (xs ys : List Entry) → count user (xs ++ ys) ≡ count user xs + count user ys
unfolding count
count-append user [] ys = omega arith
count-append user (x ∷ xs) ys = omega (arith, count-append user xs ys)

-- Those left by an admission stood in the queue as often.
count-kept : (user : String) (n : ℕ) (es : List Entry) → count user (kept n es) ≤ count user es
count-kept user n es = omega (
  arith,
  count-append user (popped n es) (kept n es),
  ap (count user) (take-append-drop n (sort_entries es)),
  count-sort_entries user es,
)

count-names :
    (user : String) (es : List Entry)
    → count user es ≡ foldr (λ m n. one_for user m + n) 0 (names es)
unfolding count
count-names user [] = refl
count-names user (e ∷ es) = ap (λ n. one_for user e.m + n) (count-names user es)

-- A permutation of the members leaves everybody as often.
count-perm :
    (user : String) (xs ys : List Entry)
    → Perm (names xs) (names ys)
    → count user xs ≡ count user ys
count-perm user xs ys h =
    count-names user xs
    ∙ Perm.foldr-eq (hlevel) (λ (m : String) (n : ℕ). one_for user m + n) (λ a b n. omega arith) h 0
    ∙ sym (count-names user ys)

count-nobody : (user : String) → count user [] ≡ 0
unfolding count
count-nobody user = refl

module _ {W : Type 0} {p : Platform W} (kv : KvLaws p) (env : Env) (off : enabled env ≡ false)
    (event_id : String) where
  pub data Step : W → W → Type 0 where
    joins :
        (user : String) (pre : Bool) (s : ℕ) (w : W)
        → Step w (join_kv p env event_id user pre s w).1
    pops : (n : ℕ) (w : W) → Step w (pop_users p env event_id n w).1
    shuffles : (w : W) → Step w (maybe_shuffle_pool p env event_id w).1
    elsewhere :
        (w w' : W)
        → queue_at kv w' (pool_key event_id) ≡ queue_at kv w (pool_key event_id)
        → queue_at kv w' (active_key event_id) ≡ queue_at kv w (active_key event_id)
        → Step w w'

  pub data Steps : W → W → Type 0 where
    none_yet : (w : W) → Steps w w
    then_one : (w w' w'' : W) → Steps w w' → Step w' w'' → Steps w w''

  joined-OneSeat :
      (user : String) (w : W) (r : Outcome Place × W)
      → OneSeat kv env w event_id
      → IsJoined kv env event_id user w r
      → OneSeat kv env r.1 event_id
  joined-OneSeat user w r one j other = elim (Bool-cases (str_eq other user)) [
    | inl same ↦ rw ((eq_iff other user).0 same) (omega (arith, j.once))
    | inr away ↦
        let apart : other ≢ user = λ e. ground (arith, eq_iff other user) in
        omega (arith, one other, j.in_pool other apart, j.in_active other apart)
  ]

  popped-OneSeat :
      (n : ℕ) (w : W)
      → OneSeat kv env w event_id
      → OneSeat kv env (pop_users p env event_id n w).1 event_id
  popped-OneSeat n w one other =
      let fair = pop_users-IsFair kv env off event_id n w in
      rw (fair.1, fair.5)
        (omega (arith, one other, count-kept other n (queue_at kv w (active_key event_id))))

  shuffled-OneSeat :
      (w : W)
      → OneSeat kv env w event_id
      → OneSeat kv env (maybe_shuffle_pool p env event_id w).1 event_id
  shuffled-OneSeat w one other = elim (Bool-cases (is_empty (queue_at kv w (pool_key event_id)))) [
    | inl nobody ↦ rw (maybe_shuffle_pool-keeps kv env off event_id w (inl nobody)) (one other)
    | inr waiting ↦ elim (Bool-cases (is_empty (queue_at kv w (active_key event_id)))) [
      | inr busy ↦ rw (maybe_shuffle_pool-keeps kv env off event_id w (inr busy)) (one other)
      | inl idle ↦
          let moved = maybe_shuffle_pool-moves kv env off event_id w waiting idle in
          rw moved.3 (
            omega (
              arith,
              one other,
              count-nobody other,
              count-perm other _ (queue_at kv w (pool_key event_id)) moved.1,
            ))
    ]
  ]

  Step-OneSeat : {w w' : W} → Step w w' → OneSeat kv env w event_id → OneSeat kv env w' event_id
  Step-OneSeat (joins user pre s w) one =
      joined-OneSeat user w _ one (join_kv-IsJoined kv env event_id user pre s w one)
  Step-OneSeat (pops n w) one = popped-OneSeat n w one
  Step-OneSeat (shuffles w) one = shuffled-OneSeat w one
  Step-OneSeat (elsewhere w w' pool active) one = λ other. rw (pool, active) (one other)

  -- Without Redis, from queues in which nobody stands twice, no series of joins, admissions and
  -- shuffles of the event, in any order and with other writes between them, leads to a user who
  -- stands twice, be it in the pool, in the active queue, or once in each.
  pub Steps-OneSeat :
      {w w' : W} → Steps w w' → OneSeat kv env w event_id → OneSeat kv env w' event_id
  Steps-OneSeat (none_yet w) one = one
  Steps-OneSeat (then_one w w' w'' before last) one = Step-OneSeat last (Steps-OneSeat before one)

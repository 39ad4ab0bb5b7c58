-- ===== src/Room/Spec.antt =====
-- What a join promises, and that the handler keeps it without Redis.
use crowdtic.Base.{
  ℕ, ◌≤◌, ◌≡◌, ◌≢◌, refl, ap, sym, ◌∙◌, inl, inr, String, str_eq, eq_iff, Bool, true, false, not,
  ◌||◌, Bool-cases, List, is_empty, arith, if◌then◌else◌,
}
use crowdtic.Platform.{Platform, Entry, pool_key, active_key}
use crowdtic.Env.{Env}
use crowdtic.Room.Queue.{has, without}
use crowdtic.Room.Join.{join_kv, kv_active, kv_pool}
use crowdtic.Room.Seats.{count, count_of_has, count_of_not-has, count-without_ne}
use crowdtic.Room.Store.{KvLaws, queue_at, value-put_self, active-put_pool}
use crowdtic.Room.Joined.{kv_active-IsSeated, kv_pool_lem}
use crowdtic.Room.Pushed.{IsPushed, push_pool-IsPushed, sort-IsPushed, empty-count}

-- Where a user stands, by which of the two queues hold the user.
pub data Standing : Type 0 where
  absent waiting queued : Standing

abbrev pub standing_with : Bool → Bool → Standing
standing_with true _ = queued
standing_with false true = waiting
standing_with false false = absent

-- The abstract join: one user moves, into the active queue or the pool.
abbrev pub join_of : Bool → String → (String → Standing) → String → Standing
join_of to_active user st v =
    if str_eq user v then (if to_active then queued else waiting) else st v

-- Enough to know of the user who joins and of everybody else.
eq-join_of :
    (b : Bool) (user : String) (st st' : String → Standing)
    → st' user ≡ (if b then queued else waiting)
    → ((v : String) → user ≢ v → st' v ≡ st v)
    → (v : String) → st' v ≡ join_of b user st v
eq-join_of b user st st' mine others v = elim (Bool-cases (str_eq user v)) [
  | inl same ↦ rw same (ap st' (sym ((eq_iff user v).0 same)) ∙ mine)
  | inr other ↦ rw other (others v (λ e. cc (other, (eq_iff user v).1 e)))
]

has_of_count : (user : String) (es : List Entry) → 1 ≤ count user es → has user es ≡ true
has_of_count user es h = elim (Bool-cases (has user es)) [
  | inl e ↦ e
  | inr e ↦ ground (arith, count_of_not-has user es e, h)
]

not_has_of_count : (user : String) (es : List Entry) → count user es ≡ 0 → has user es ≡ false
not_has_of_count user es h = elim (Bool-cases (has user es)) [
  | inl e ↦ ground (arith, count_of_has user es e, h)
  | inr e ↦ e
]

-- Who stands as often stands as well.
same_has :
    (user : String) (xs ys : List Entry) → count user xs ≡ count user ys → has user xs ≡ has user ys
same_has user xs ys h = elim (Bool-cases (has user ys)) [
  | inl e ↦ has_of_count user xs (omega (arith, h, count_of_has user ys e)) ∙ sym e
  | inr e ↦ not_has_of_count user xs (h ∙ count_of_not-has user ys e) ∙ sym e
]

pushed-has : (user : String) (old new : List Entry) → IsPushed user old new → has user new ≡ true
pushed-has user old new h = elim (Bool-cases (has user old)) [
  | inl e ↦ has_of_count user new (omega (arith, h.again e, count_of_has user old e))
  | inr e ↦ has_of_count user new (omega (arith, h.fresh e))
]

module _ {W : Type 0} {p : Platform W} (kv : KvLaws p) (env : Env) (event_id : String) where
  pub kv_standing : W → String → Standing
  kv_standing w v =
      standing_with (has v (queue_at kv w (active_key event_id)))
        (has v (queue_at kv w (pool_key event_id)))

  kv_active-join_of :
      (user : String) (w : W) (v : String)
      → kv_standing (kv_active p env event_id user (queue_at kv w (active_key event_id)) w).1 v
        ≡ join_of true user (kv_standing w) v
  unfolding kv_standing
  kv_active-join_of user w =
      let (place, w', e, seated) = kv_active-IsSeated kv env event_id user w in
      let pool = queue_at kv w (pool_key event_id) in
      rw e (
        eq-join_of true user (kv_standing w) (kv_standing w')
          (rw (pushed-has user _ _ seated.active) refl)
          (λ v ne.
            rw
              (
                seated.pool,
                same_has v _ _ (seated.active.others v (λ q. ne (sym q))),
                same_has v (without user pool) pool
                    (count-without_ne user v pool (λ q. ne (sym q))),
              )
              refl))

  kv_pool-join_of :
      (user : String) (s : ℕ) (w : W)
      → is_empty (queue_at kv w (active_key event_id)) ≡ true
      → (v : String)
      → kv_standing (kv_pool p env event_id user s w).1 v ≡ join_of false user (kv_standing w) v
  unfolding kv_standing
  kv_pool-join_of user s w idle =
      let (place, e, position) = kv_pool_lem kv env event_id user s w in
      let old = queue_at kv w (pool_key event_id) in
      let pushed = sort-IsPushed user old _ (push_pool-IsPushed user s old) in
      let nobody = λ (v : String).
        not_has_of_count v (queue_at kv w (active_key event_id)) (empty-count v _ idle) in
      rw e (
        eq-join_of false user (kv_standing w) _
          (rw
            (
              value-put_self kv event_id _ w (pool_key event_id),
              active-put_pool kv event_id,
              nobody user,
              pushed-has user _ _ pushed,
            )
            refl)
          (λ v ne.
            rw
              (
                value-put_self kv event_id _ w (pool_key event_id),
                active-put_pool kv event_id,
                same_has v _ _ (pushed.others v (λ q. ne (sym q))),
              )
              refl))

  -- Without Redis, a join does what the abstract join does, into the active queue if that holds
  -- somebody or the sale has begun, and into the pool otherwise.
  pub join_kv-join_of :
      (user : String) (pre : Bool) (s : ℕ) (w : W) (v : String)
      → kv_standing (join_kv p env event_id user pre s w).1 v
        ≡ join_of
            (not (is_empty (queue_at kv w (active_key event_id))) || not pre)
            user
            (kv_standing w)
            v
  unfolding join_kv
  join_kv-join_of user pre s w v =
      elim (Bool-cases (not (is_empty (queue_at kv w (active_key event_id))) || not pre)) [
        | inl live ↦ rw (kv.kv_get_lem, live) (kv_active-join_of user w v)
        | inr early ↦ rw (kv.kv_get_lem, early) (kv_pool-join_of user s w (ground arith) v)
      ]

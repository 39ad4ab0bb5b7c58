-- ===== src/Room/Moved.antt =====
-- The step from the pool to the active queue at T-0, without Redis.
use crowdtic.Base.{
  ℕ, ◌+◌, ◌≤◌, ◌≡◌, refl, ap, ◌∙◌, ◌⊎◌, inl, inr, String, true, false, some, List, [], ◌∷◌, Perm,
  All, ok, is_empty, arith, Bool-cases,
}
use crowdtic.Platform.{
  Platform, Entry, entries, number, pool_key, active_key, admitted_key, waiting_room_kv,
}
use crowdtic.Env.{Env}
use crowdtic.Redis.{enabled}
use crowdtic.RateLimit.{counter}
use crowdtic.Shuffle.{shuffle_in_place}
use crowdtic.Shuffle.Perm.{shuffle_in_place-perm}
use crowdtic.Room.Queue.{stamp, ms}
use crowdtic.Room.Pool.{maybe_shuffle_pool, shuffle_kv, replace_queue, names}
use crowdtic.Room.Sorted.{IsSorted}
use crowdtic.Room.Store.{
  KvLaws, kv_put_hour, queue_at, value_at, value-put_self, pool-put_admitted, active-put_admitted,
  active-put_pool,
}

names-stamp : (now : ℕ) (members : List String) → names (stamp now members) ≡ members
unfolding stamp
names-stamp now [] = refl
names-stamp now (m ∷ members) = ap (λ ms. m ∷ ms) (names-stamp (now + 1) members)

ms_mono : (a b : ℕ) → a ≤ b → ms a ≤ ms b
unfolding ms
ms_mono a b h = omega arith

stamp-NotBefore :
    (now later : ℕ) (members : List String)
    → now ≤ later
    → All (λ x. ms now ≤ x.s) (stamp later members)
unfolding stamp
stamp-NotBefore now later [] h = tt
stamp-NotBefore now later (m ∷ members) h =
    (ms_mono now later h, stamp-NotBefore now (later + 1) members (omega arith))

stamp-IsSorted : (now : ℕ) (members : List String) → IsSorted (stamp now members)
unfolding stamp
stamp-IsSorted now [] = tt
stamp-IsSorted now (m ∷ members) =
    (stamp-NotBefore now (now + 1) members (omega arith), stamp-IsSorted (now + 1) members)

module _ {W : Type 0} {p : Platform W} (kv : KvLaws p) (env : Env) (off : enabled env ≡ false) where
  -- The worlds between the calls of `replaceQueue`: after the shuffle, and after the clock.
  abbrev shuffled : String → W → List String × W
  shuffled event_id w = shuffle_in_place p (names (queue_at kv w (pool_key event_id))) w

  abbrev pub new_active : String → W → List Entry
  new_active event_id w = stamp (p.date_now (shuffled event_id w).1).0 (shuffled event_id w).0

  replaced :
      (event_id : String) (w : W)
      → replace_queue p env event_id (queue_at kv w (pool_key event_id)) w ≡ (
        ok true,
        kv.put waiting_room_kv (admitted_key event_id) (number 0) (
            kv.put waiting_room_kv (pool_key event_id) (entries []) (
              kv.put waiting_room_kv
                (active_key event_id)
                (entries (new_active event_id w))
                (p.date_now (shuffled event_id w).1).1)),
      )
  unfolding replace_queue
  replaced event_id w = simp (kv.kv_put_lem, kv_put_hour kv)

  shuffle_kv_lem :
      (event_id : String) (w : W)
      → is_empty (queue_at kv w (pool_key event_id)) ≡ false
      → is_empty (queue_at kv w (active_key event_id)) ≡ true
      → maybe_shuffle_pool p env event_id w
        ≡ replace_queue p env event_id (queue_at kv w (pool_key event_id)) w
  unfolding maybe_shuffle_pool shuffle_kv
  shuffle_kv_lem event_id w some_wait none_active =
      rw off (simp (kv.kv_get_lem, some_wait, none_active))

  -- Without Redis, if the pool holds somebody and the active queue nobody, the active queue becomes
  -- a permutation of the pool's members in order of rising scores, the pool becomes empty and the
  -- watermark 0, whatever the random numbers are.
  pub maybe_shuffle_pool-moves :
      (event_id : String) (w : W)
      → is_empty (queue_at kv w (pool_key event_id)) ≡ false
      → is_empty (queue_at kv w (active_key event_id)) ≡ true
      → ((maybe_shuffle_pool p env event_id w).0 ≡ ok true)
        × Perm
            (names (queue_at kv (maybe_shuffle_pool p env event_id w).1 (active_key event_id)))
            (names (queue_at kv w (pool_key event_id)))
        × IsSorted (queue_at kv (maybe_shuffle_pool p env event_id w).1 (active_key event_id))
        × (queue_at kv (maybe_shuffle_pool p env event_id w).1 (pool_key event_id) ≡ [])
        × (counter (value_at kv (maybe_shuffle_pool p env event_id w).1 (admitted_key event_id))
            ≡ some 0)
  maybe_shuffle_pool-moves event_id w some_wait none_active =
      let moved = shuffle_kv_lem event_id w some_wait none_active ∙ replaced event_id w in
      rw
        (
          moved,
          active-put_admitted kv event_id,
          active-put_pool kv event_id,
          pool-put_admitted kv event_id,
          value-put_self kv event_id _ _ (active_key event_id),
          value-put_self kv event_id _ _ (pool_key event_id),
          value-put_self kv event_id _ _ (admitted_key event_id),
        )
        (
          refl,
          rw (names-stamp _ (shuffled event_id w).0) (shuffle_in_place-perm p _ w),
          stamp-IsSorted _ _,
          refl,
          refl,
        )

  -- Without Redis, if the pool is empty or the active queue is not, nothing is changed.
  pub maybe_shuffle_pool-keeps :
      (event_id : String) (w : W)
      → (is_empty (queue_at kv w (pool_key event_id)) ≡ true)
        ⊎ (is_empty (queue_at kv w (active_key event_id)) ≡ false)
      → maybe_shuffle_pool p env event_id w ≡ (ok false, w)
  unfolding maybe_shuffle_pool shuffle_kv
  maybe_shuffle_pool-keeps event_id w (inl nobody) = rw off (simp (kv.kv_get_lem, nobody))
  maybe_shuffle_pool-keeps event_id w (inr busy) =
      elim (Bool-cases (is_empty (queue_at kv w (pool_key event_id)))) [
        | inl nobody ↦ rw off (simp (kv.kv_get_lem, nobody))
        | inr waiting ↦ rw off (simp (kv.kv_get_lem, waiting, busy))
      ]

-- ===== src/Room/Popped.antt =====
-- Whom an admission takes off the active queue, without Redis.
use crowdtic.Base.{
  ℕ, ◌≡◌, refl, ap, ◌∙◌, String, false, List, ◌++◌, map, Perm, All, length, length-take, take, drop,
  take-append-drop, min, ok,
}
use crowdtic.Platform.{Platform, Entry, entries, pool_key, active_key, waiting_room_kv}
use crowdtic.Env.{Env}
use crowdtic.Redis.{enabled}
use crowdtic.Room.Queue.{sort_entries}
use crowdtic.Room.Admit.{pop_users, pop_kv}
use crowdtic.Room.Sorted.{
  NotBefore, sort_entries-perm, sort_entries-IsSorted, take-NotBefore-drop, length-sort_entries,
}
use crowdtic.Room.Store.{KvLaws, queue_at, value-put_self, pool-put_active}

-- The users of a queue's entries.
abbrev pub users_of : List Entry → List String
users_of = map (λ e. e.m)

-- The entries that an admission of `n` takes, and those that it leaves.
abbrev pub popped : ℕ → List Entry → List Entry
popped n queue = take n (sort_entries queue)

abbrev pub kept : ℕ → List Entry → List Entry
kept n queue = drop n (sort_entries queue)

module _ {W : Type 0} {p : Platform W} (kv : KvLaws p) (env : Env) (off : enabled env ≡ false) where
  pub pop_users_lem :
      (event_id : String) (n : ℕ) (w : W)
      → pop_users p env event_id n w ≡ (
        ok (users_of (popped n (queue_at kv w (active_key event_id)))),
        kv.put waiting_room_kv
            (active_key event_id)
            (entries (kept n (queue_at kv w (active_key event_id))))
            w,
      )
  unfolding pop_users pop_kv
  pop_users_lem event_id n w = rw off (simp (kv.kv_get_lem, kv.kv_put_lem))

  -- Without Redis, an admission of `n` from the active queue returns its `n` users with the lowest
  -- scores (all, if there are fewer), in that order, and stores the rest: nobody is lost or added,
  -- nobody left in the queue has a lower score than anybody admitted, and the pool is untouched.
  pub pop_users-IsFair :
      (event_id : String) (n : ℕ) (w : W)
      → ((pop_users p env event_id n w).0
          ≡ ok (users_of (popped n (queue_at kv w (active_key event_id)))))
        × (queue_at kv (pop_users p env event_id n w).1 (active_key event_id)
            ≡ kept n (queue_at kv w (active_key event_id)))
        × Perm
            (popped n (queue_at kv w (active_key event_id))
              ++ queue_at kv (pop_users p env event_id n w).1 (active_key event_id))
            (queue_at kv w (active_key event_id))
        × (length (popped n (queue_at kv w (active_key event_id)))
            ≡ min n (length (queue_at kv w (active_key event_id))))
        × All
            (λ e. NotBefore e (queue_at kv (pop_users p env event_id n w).1 (active_key event_id)))
            (popped n (queue_at kv w (active_key event_id)))
        × (queue_at kv (pop_users p env event_id n w).1 (pool_key event_id)
            ≡ queue_at kv w (pool_key event_id))
  pop_users-IsFair event_id n w =
      let queue = queue_at kv w (active_key event_id) in
      rw (pop_users_lem event_id n w, value-put_self kv event_id, pool-put_active kv event_id)
        (
          refl,
          refl,
          rw (take-append-drop n (sort_entries queue)) (sort_entries-perm queue),
          length-take n (sort_entries queue) ∙ ap (min n) (length-sort_entries queue),
          take-NotBefore-drop n (sort_entries queue) (sort_entries-IsSorted queue),
          refl,
        )

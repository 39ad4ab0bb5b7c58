-- ===== src/Room/Joined.antt =====
-- Where a join leaves the queues, without Redis.
use crowdtic.Base.{
  ℕ, ◌+◌, ◌≤◌, ◌≡◌, refl, ap, ◌∙◌, sym, inl, inr, ◌≢◌, String, Bool, true, not, ◌||◌, Option, none,
  some, List, [], ◌∷◌, ◌++◌, Outcome, ok, is_empty, arith, get_or, Bool-cases, length,
}
use crowdtic.Platform.{Platform, Entry, entries, pool_key, active_key, waiting_room_kv}
use crowdtic.Env.{Env}
use crowdtic.Room.Queue.{as_entries, has, without, sort_entries, ms, find_index}
use crowdtic.Room.Status.{standing_of}
use crowdtic.Room.Standing.{place_in, rank_in_lem}
use crowdtic.Room.Join.{
  one_based, Place, push_active, push_pool, leave_pool, kv_active, kv_pool, join_kv,
}
use crowdtic.Room.Sorted.{IsSorted, sort_entries-IsSorted}
use crowdtic.Room.Seats.{
  count, count-without_self, count-without_ne, find_index_of_count, find_index_of_nobody,
}
use crowdtic.Room.Store.{
  KvLaws, queue_at, value_at, value-put_self, pool-put_active, active-put_pool,
}
use crowdtic.Room.Pushed.{
  IsPushed, append_one-IsPushed, same-IsPushed, sort-IsPushed, push_pool-IsPushed, empty-count,
  pushed_once,
}

-- The position of a status reply, by the place in the queue that counts.
standing_of_active :
    (a q : Option ℕ) (i : ℕ) → a ≡ some i → (standing_of a q).position ≡ one_based a
standing_of_active a q i e = rw e refl

standing_of_pool : (a q : Option ℕ) → a ≡ none → (standing_of a q).position ≡ one_based q
standing_of_pool a none e = rw e refl
standing_of_pool a (some i) e = rw e refl

module _ {W : Type 0} {p : Platform W} (kv : KvLaws p) (env : Env) where
  push_active-IsPushed :
      (user : String) (old : List Entry) (w : W)
      → (new : List Entry) × (w' : W) × (push_active p env user old w ≡ (ok new, w'))
        × (kv.lookup w' ≡ kv.lookup w)
        × IsPushed user old new
  unfolding push_active
  push_active-IsPushed user old w = elim (Bool-cases (has user old)) [
    | inl present ↦ (old, w, rw present, refl, same-IsPushed user old present)
    | inr absent ↦ (
      old ++ record { m = user; s = ms ((p.date_now w).0 + length old) } ∷ [],
      (p.date_now w).1,
      rw absent,
      kv.lookup-date_now w,
      append_one-IsPushed user _ old absent,
    )
  ]

  -- The queues after a join into the active queue.
  pub record IsSeated (event_id user : String) (place : Place) (w w' : W) : Type 0 where
    pub position : place.position ≡ find_index user (queue_at kv w' (active_key event_id))
    pub active :
        IsPushed user (queue_at kv w (active_key event_id)) (queue_at kv w' (active_key event_id))
    pub pool : queue_at kv w' (pool_key event_id) ≡ without user (queue_at kv w (pool_key event_id))
    pub sorted : IsSorted (queue_at kv w' (active_key event_id))

  leave_pool_lem :
      (event_id user : String) (w : W) (o : Option (List Entry))
      → as_entries (value_at kv w (pool_key event_id)) ≡ o
      → (w' : W) × (leave_pool p env event_id user o w ≡ (ok tt, w'))
        × (queue_at kv w' (pool_key event_id) ≡ without user (queue_at kv w (pool_key event_id)))
        × (value_at kv w' (active_key event_id) ≡ value_at kv w (active_key event_id))
  unfolding leave_pool without
  leave_pool_lem event_id user w none e = (w, refl, rw e, refl)
  leave_pool_lem event_id user w (some pool) e = (
    kv.put waiting_room_kv (pool_key event_id) (entries (without user pool)) w,
    kv.kv_put_lem _ _ _ w,
    rw (value-put_self kv event_id _ _ (pool_key event_id), e),
    active-put_pool kv event_id _ w,
  )

  pub kv_active-IsSeated :
      (event_id user : String) (w : W)
      → (place : Place) × (w' : W) × (kv_active p env event_id user
            (queue_at kv w (active_key event_id))
            w
          ≡ (ok place, w'))
        × IsSeated event_id user place w w'
  unfolding kv_active
  kv_active-IsSeated event_id user w =
      let old = queue_at kv w (active_key event_id) in
      let (new, w₁, pushed, same, is) = push_active-IsPushed user old w in
      let w₂ = kv.put waiting_room_kv (active_key event_id) (entries (sort_entries new)) w₁ in
      let (w₃, left, pool, active) = leave_pool_lem event_id user w₂ _ refl in
      let unmoved : value_at kv w₂ (pool_key event_id) ≡ value_at kv w (pool_key event_id) =
        pool-put_active kv event_id _ w₁ ∙ ap (λ f. f waiting_room_kv (pool_key event_id)) same in
      (
        record { position = find_index user (sort_entries new); size = length (sort_entries new) },
        w₃,
        rw (pushed, kv.kv_put_lem, kv.kv_get_lem, left),
        record {
          position = rw (active, value-put_self kv event_id _ w₁ (active_key event_id)) refl;
          active =
              rw (active, value-put_self kv event_id _ w₁ (active_key event_id))
                (sort-IsPushed user old new is);
          sorted =
              rw (active, value-put_self kv event_id _ w₁ (active_key event_id))
                (sort_entries-IsSorted new);
          pool = pool ∙ ap (λ v. without user (get_or (as_entries v) [])) unmoved;
        },
      )

  pub kv_pool_lem :
      (event_id user : String) (s : ℕ) (w : W)
      → (place : Place) × (kv_pool p env event_id user s w ≡ (
        ok place,
        kv.put waiting_room_kv
            (pool_key event_id)
            (entries (sort_entries (push_pool user s (queue_at kv w (pool_key event_id)))))
            w,
      ))
        × (place.position
            ≡ find_index user (sort_entries (push_pool user s (queue_at kv w (pool_key event_id)))))
  unfolding kv_pool
  kv_pool_lem event_id user s w =
      let arr = sort_entries (push_pool user s (queue_at kv w (pool_key event_id))) in
      (
        record { position = find_index user arr; size = length arr },
        simp (kv.kv_get_lem, kv.kv_put_lem),
        refl,
      )

  -- How often a user stands in the two queues of an event.
  abbrev pub seats : W → String → String → ℕ
  seats w event_id user =
      count user (queue_at kv w (pool_key event_id))
      + count user (queue_at kv w (active_key event_id))

  -- Nobody stands twice.
  abbrev pub OneSeat : W → String → Type 0
  OneSeat w event_id = (user : String) → seats w event_id user ≤ 1

  -- What a join of `user` has made of the queues.
  pub record IsJoined (event_id user : String) (w : W) (r : Outcome Place × W) : Type 0 where
    pub place : Place
    pub returned : r.0 ≡ ok place
    pub once : seats r.1 event_id user ≡ 1
    pub seat : (i : ℕ) × (place.position ≡ some i)
    pub told :
        (standing_of
          (place_in kv r.1 (active_key event_id) user)
          (place_in kv r.1 (pool_key event_id) user)).position
        ≡ one_based place.position
    pub in_pool :
        (other : String)
        → other ≢ user
        → count other (queue_at kv r.1 (pool_key event_id))
          ≡ count other (queue_at kv w (pool_key event_id))
    pub in_active :
        (other : String)
        → other ≢ user
        → count other (queue_at kv r.1 (active_key event_id))
          ≡ count other (queue_at kv w (active_key event_id))
    pub pool_sorted :
        1 ≤ count user (queue_at kv r.1 (pool_key event_id))
        → IsSorted (queue_at kv r.1 (pool_key event_id))
    pub active_sorted :
        1 ≤ count user (queue_at kv r.1 (active_key event_id))
        → IsSorted (queue_at kv r.1 (active_key event_id))

  active-IsJoined :
      (event_id user : String) (w : W)
      → OneSeat w event_id
      → IsJoined event_id user w
          (kv_active p env event_id user (queue_at kv w (active_key event_id)) w)
  active-IsJoined event_id user w one =
      let (place, w', e, seated) = kv_active-IsSeated event_id user w in
      let once = pushed_once user _ _ seated.active (omega (arith, one user)) in
      let (i, q) =
        find_index_of_count user (queue_at kv w' (active_key event_id)) (omega (arith, once)) in
      let here = rank_in_lem user (as_entries (value_at kv w' (active_key event_id))) in
      record {
        place = place;
        returned = rw e;
        seat = (i, seated.position ∙ q);
        told =
            rw e (standing_of_active _ _ i (here ∙ q) ∙ ap one_based (here ∙ sym seated.position));
        once =
            rw (e, seated.pool, once)
              (omega (arith, count-without_self user (queue_at kv w (pool_key event_id))));
        in_pool = λ other ne. rw (e, seated.pool) (count-without_ne user other _ ne);
        in_active = λ other ne. rw e (seated.active.others other ne);
        pool_sorted =
            rw (e, seated.pool, count-without_self user (queue_at kv w (pool_key event_id)))
              (λ h. absurd (omega (arith, h)));
        active_sorted = rw e (λ h. seated.sorted);
      }

  pool-IsJoined :
      (event_id user : String) (s : ℕ) (w : W)
      → is_empty (queue_at kv w (active_key event_id)) ≡ true
      → OneSeat w event_id
      → IsJoined event_id user w (kv_pool p env event_id user s w)
  pool-IsJoined event_id user s w idle one =
      let (place, e, position) = kv_pool_lem event_id user s w in
      let old = queue_at kv w (pool_key event_id) in
      let pushed = sort-IsPushed user old _ (push_pool-IsPushed user s old) in
      let once = pushed_once user old _ pushed (omega (arith, one user)) in
      let (i, q) =
        find_index_of_count user (sort_entries (push_pool user s old)) (omega (arith, once)) in
      let away : place_in kv w (active_key event_id) user ≡ none =
        rank_in_lem user (as_entries (value_at kv w (active_key event_id)))
        ∙ find_index_of_nobody user _ (empty-count user _ idle) in
      let nobody = λ (u : String). empty-count u (queue_at kv w (active_key event_id)) idle in
      record {
        place = place;
        returned = rw e;
        seat = (i, position ∙ q);
        told =
            rw (e, value-put_self kv event_id _ w (pool_key event_id), active-put_pool kv event_id)
              (standing_of_pool _ _ away ∙ ap one_based (sym position));
        once =
            rw
              (
                e,
                value-put_self kv event_id _ w (pool_key event_id),
                active-put_pool kv event_id,
                once,
              )
              (omega (arith, nobody user));
        in_pool = λ other ne.
            rw (e, value-put_self kv event_id _ w (pool_key event_id)) (pushed.others other ne);
        in_active = λ other ne. rw (e, active-put_pool kv event_id) refl;
        pool_sorted =
            rw (e, value-put_self kv event_id _ w (pool_key event_id))
              (λ h. sort_entries-IsSorted (push_pool user s old));
        active_sorted =
            rw (e, active-put_pool kv event_id) (λ h. absurd (omega (arith, h, nobody user)));
      }

  -- Without Redis, a join from queues in which nobody stands twice succeeds and leaves the user
  -- exactly one place in the pool and the active queue together, in a queue that is in the order of
  -- its scores, and everybody else in the pool and in the active queue as often as before; it
  -- returns a position, which is the one that a status request right after it tells.
  pub join_kv-IsJoined :
      (event_id user : String) (pre : Bool) (s : ℕ) (w : W)
      → OneSeat w event_id
      → IsJoined event_id user w (join_kv p env event_id user pre s w)
  unfolding join_kv
  join_kv-IsJoined event_id user pre s w one =
      elim (Bool-cases (not (is_empty (queue_at kv w (active_key event_id))) || not pre)) [
        | inl live ↦ rw (kv.kv_get_lem, live) (active-IsJoined event_id user w one)
        | inr early ↦ rw (kv.kv_get_lem, early) (pool-IsJoined event_id user s w (ground arith) one)
      ]

-- ===== src/Room/Race.antt =====
-- Two joins of the pool at the same time, without Redis: the reads and writes of the handlers are
-- apart, so that one can read before the other has written.
use crowdtic.Base.{
  ℕ, ◌≡◌, ◌≢◌, refl, ap, ◌∙◌, String, false, Option, some, get_or, ok, arith, List, [], length,
}
use crowdtic.Platform.{Platform, Entry, entries, Value, pool_key, waiting_room_kv}
use crowdtic.Env.{Env}
use crowdtic.Room.Queue.{as_entries, has, sort_entries, find_index}
use crowdtic.Room.Join.{Place, push_pool, kv_pool_read}
use crowdtic.Room.Seats.{count, find_index_of_count, count_of_not-has}
use crowdtic.Room.Store.{KvLaws, queue_at, value_at, value-put_self}
use crowdtic.Room.Pushed.{push_pool-IsPushed, sort-IsPushed}

module _ {W : Type 0} {p : Platform W} (kv : KvLaws p) (env : Env) (event_id : String) where
  -- What is stored and answered after a pool has been read.
  kv_pool_read_lem :
      (user : String) (s : ℕ) (raw : Option Value) (w : W)
      → ((kv_pool_read p env event_id user s raw w).0
          ≡ ok (record {
            position =
                find_index user (sort_entries (push_pool user s (get_or (as_entries raw) [])));
            size = length (sort_entries (push_pool user s (get_or (as_entries raw) [])));
          }))
        × (queue_at kv (kv_pool_read p env event_id user s raw w).1 (pool_key event_id)
            ≡ sort_entries (push_pool user s (get_or (as_entries raw) [])))
  unfolding kv_pool_read
  kv_pool_read_lem user s raw w =
      rw
        (
          kv.kv_put_lem waiting_room_kv (pool_key event_id)
              (entries (sort_entries (push_pool user s (get_or (as_entries raw) [])))) w,
          value-put_self kv event_id
              (entries (sort_entries (push_pool user s (get_or (as_entries raw) [])))) w
              (pool_key event_id),
        )
        (refl, refl)

  -- The pool after a join that had read `raw`.
  abbrev pub pool_after : String → ℕ → Option Value → W → List Entry
  pool_after user s raw w =
      queue_at kv (kv_pool_read p env event_id user s raw w).1 (pool_key event_id)

  -- If two users join the pool and both read it before either has written, the one who writes first
  -- is answered with a position and stands in the pool, and is gone from it when the other has
  -- written.
  pub kv_pool-overwritten :
      (user other : String) (s t : ℕ) (w : W)
      → has user (queue_at kv w (pool_key event_id)) ≡ false
      → user ≢ other
      → let raw = value_at kv w (pool_key event_id) in
        let w₁ = (kv_pool_read p env event_id user s raw w).1 in
        (place : Place) × (i : ℕ) × ((kv_pool_read p env event_id user s raw w).0 ≡ ok place)
        × (place.position ≡ some i)
        × (count user (pool_after user s raw w) ≡ 1)
        × (count user (pool_after other t raw w₁) ≡ 0)
  kv_pool-overwritten user other s t w absent apart =
      let raw = value_at kv w (pool_key event_id) in
      let old = get_or (as_entries raw) [] in
      let w₁ = (kv_pool_read p env event_id user s raw w).1 in
      let first = kv_pool_read_lem user s raw w in
      let second = kv_pool_read_lem other t raw w₁ in
      let mine = sort-IsPushed user old _ (push_pool-IsPushed user s old) in
      let theirs = sort-IsPushed other old _ (push_pool-IsPushed other t old) in
      let one = mine.fresh absent in
      let (i, found) = find_index_of_count user _ (omega (arith, one)) in
      (
        _,
        i,
        first.0,
        found,
        ap (count user) first.1 ∙ one,
        ap (count user) second.1 ∙ theirs.others user apart ∙ count_of_not-has user old absent,
      )

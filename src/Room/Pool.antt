-- ===== src/Room/Pool.antt =====
-- `maybeShufflePool`: at T-0 the pool becomes the active queue, in random order.
use crowdtic.Base.{
  ℕ, ◌+◌, ◌==◌, String, Bool, true, false, not, none, some, List, [], ◌∷◌, ◌++◌, map, ltb,
  if◌then◌else◌, get_or, is_empty, M, pure, ◌>>=◌, ◌>>◌, lift,
}
use crowdtic.Platform.{
  Platform, Entry, entries, text, number, Key, pool_key, active_key, admitted_key, waiting_room_kv,
  Arg, word, key, score, count, stored, Reply, bulk, array, Replies, end, item,
}
use crowdtic.Env.{Env}
use crowdtic.Redis.{enabled, cmd, pipeline, as_count}
use crowdtic.Shuffle.{shuffle_in_place}
use crowdtic.Room.Queue.{as_entries, ms, stamp}

-- `String(x)` of a member in a reply.
abbrev pub as_member : Reply → String
as_member (bulk (text s)) = s
as_member _ = "null"

abbrev pub members_of : Replies → List String
members_of end = []
members_of (item r rs) = as_member r ∷ members_of rs

-- `cmd<string[]>`, with null as no members.
abbrev pub as_members : Reply → List String
as_members (array rs) = members_of rs
as_members _ = []

abbrev pub names : List Entry → List String
names = map (λ e. e.m)

unfoldable pub zadds : Key → ℕ → List String → List (List Arg)
zadds k now [] = []
zadds k now (m ∷ members) =
    (word "ZADD" ∷ key k ∷ score (ms now) ∷ word m ∷ []) ∷ zadds k (now + 1) members

module _ {W : Type 0} (p : Platform W) (env : Env) where
  unfoldable pub shuffle_redis : String → M W Bool
  unfolding zadds
  shuffle_redis event_id = do
    p_size ← cmd p env (word "ZCARD" ∷ key (pool_key event_id) ∷ [])
    a_size ← cmd p env (word "ZCARD" ∷ key (active_key event_id) ∷ [])
    if get_or (as_count p_size) 0 == 0
        then pure false
        else if ltb 0 (get_or (as_count a_size) 0)
        then pure false
        else (do
          range ← cmd p env (word "ZRANGE" ∷ key (pool_key event_id) ∷ word "0" ∷ word "-1" ∷ [])
          if is_empty (as_members range) then pure false else (do
            members ← lift (shuffle_in_place p (as_members range))
            now ← lift p.date_now
            _ ← pipeline p env (
                zadds (active_key event_id) now members
                ++ ((word "DEL" ∷ key (pool_key event_id) ∷ [])
                    ∷ (word "SET"
                        ∷ key (admitted_key event_id)
                        ∷ stored (number 0)
                        ∷ word "EX"
                        ∷ count 3600
                        ∷ [])
                    ∷ []))
            pure true))

  unfoldable pub replace_queue : String → List Entry → M W Bool
  replace_queue event_id pool = do
    members ← lift (shuffle_in_place p (names pool))
    now ← lift p.date_now
    p.kv_put waiting_room_kv (active_key event_id) (entries (stamp now members)) none
    p.kv_put waiting_room_kv (pool_key event_id) (entries []) none
    p.kv_put waiting_room_kv (admitted_key event_id) (number 0) (some 3600)
    pure true

  unfoldable pub shuffle_kv : String → M W Bool
  unfolding replace_queue
  shuffle_kv event_id = do
    pool_raw ← p.kv_get waiting_room_kv (pool_key event_id)
    active_raw ← p.kv_get waiting_room_kv (active_key event_id)
    let pool = get_or (as_entries pool_raw) []
    if is_empty pool
        then pure false
        else if not (is_empty (get_or (as_entries active_raw) []))
        then pure false
        else replace_queue event_id pool

  unfoldable pub maybe_shuffle_pool : String → M W Bool
  unfolding shuffle_redis shuffle_kv
  maybe_shuffle_pool event_id = if enabled env then shuffle_redis event_id else shuffle_kv event_id

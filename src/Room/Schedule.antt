-- ===== src/Room/Schedule.antt =====
-- `handleScheduled`: the sweep over the pools whose T-0 has passed.
use crowdtic.Base.{
  ℕ, String, Bool, false, ◌||◌, Option, none, some, List, [], ◌∷◌, ◌++◌, ltb, if◌then◌else◌, M,
  pure, ◌>>=◌, ◌>>◌, lift, try_catch, is_blank, str_eq,
}
use crowdtic.Platform.{Platform, Key, pool_key, waiting_index, waiting_room_kv, word, key}
use crowdtic.Env.{Env}
use crowdtic.Redis.{enabled, cmd}
use crowdtic.Room.Guards.{get_event_meta}
use crowdtic.Room.Pool.{as_members, maybe_shuffle_pool}

-- `k.name.match(/waiting:pool:\{(.+)\}/)?.[1]`, without the keys that do not match.
unfoldable pub pools_of : List Key → List String
pools_of [] = []
pools_of (pool_key event_id ∷ ks) =
    let rest = pools_of ks in if is_blank event_id then rest else event_id ∷ rest
pools_of (k ∷ ks) = pools_of ks

unfoldable pub includes : String → List String → Bool
includes id [] = false
includes id (x ∷ xs) = str_eq x id || includes id xs

-- `for (const id of idx) if (!eventIds.includes(id)) eventIds.push(id)`
unfoldable pub add_missing : List String → List String → List String
add_missing ids [] = ids
add_missing ids (id ∷ idx) = add_missing (if includes id ids then ids else ids ++ id ∷ []) idx

module _ {W : Type 0} (p : Platform W) (env : Env) where
  unfoldable pub indexed : List String → M W (List String)
  indexed ids =
      if enabled env
      then try_catch
          (do
            idx ← cmd p env (word "SMEMBERS" ∷ key waiting_index ∷ [])
            pure (add_missing ids (as_members idx)))
          (λ _. pure ids)
      else pure ids

  unfoldable pub sweep_due : String → Option ℕ → M W (Unit {0})
  sweep_due event_id none = pure tt
  sweep_due event_id (some t) = do
    now ← lift p.date_now
    if ltb now t then pure tt else (do _ ← maybe_shuffle_pool p env event_id; pure tt)

  unfoldable pub sweep_one : String → M W (Unit {0})
  unfolding sweep_due
  sweep_one event_id = do on_sale_at ← get_event_meta p env event_id; sweep_due event_id on_sale_at

  unfoldable pub sweep : List String → M W (Unit {0})
  sweep [] = pure tt
  sweep (event_id ∷ ids) = let rest = sweep ids in do sweep_one event_id; rest

  unfoldable pub handle_scheduled : M W (Unit {0})
  unfolding indexed
  handle_scheduled = do
    listed ← p.kv_list waiting_room_kv
    ids ← indexed (pools_of listed)
    sweep ids

-- ===== src/Room/Store.antt =====
-- What the handlers rely on of the KV namespace, without Redis: a read gives what was last
-- written, a write changes its own key only, and no key ends while a handler runs. A write with a
-- lifetime below 60 seconds is refused.
use crowdtic.Base.{
  String, ℕ, ◌≡◌, ◌≢◌, ◌≤◌, ◌<◌, Option, none, some, List, [], ok, throw, get_or, arith,
}
use crowdtic.Platform.{
  Platform, Namespace, waiting_room_kv, Key, pool_key, active_key, admitted_key, Value, Entry,
}
use crowdtic.Room.Queue.{as_entries}

pub record KvLaws {W : Type 0} (p : Platform W) : Type 0 where
  pub lookup : W → Namespace → Key → Option Value
  pub put : Namespace → Key → Value → W → W
  pub kv_get_lem : (ns : Namespace) (k : Key) (w : W) → p.kv_get ns k w ≡ (ok (lookup w ns k), w)
  pub kv_put_lem :
      (ns : Namespace) (k : Key) (v : Value) (w : W)
      → p.kv_put ns k v none w ≡ (ok tt, put ns k v w)
  pub kv_put_for :
      (ns : Namespace) (k : Key) (v : Value) (ttl : ℕ) (w : W)
      → 60 ≤ ttl
      → p.kv_put ns k v (some ttl) w ≡ (ok tt, put ns k v w)
  pub kv_put_short :
      (ns : Namespace) (k : Key) (v : Value) (ttl : ℕ) (w : W)
      → ttl < 60
      → (e : String) × p.kv_put ns k v (some ttl) w ≡ (throw e, w)
  pub lookup-put_self :
      (ns : Namespace) (k : Key) (v : Value) (w : W) → lookup (put ns k v w) ns k ≡ some v
  pub lookup-put_ne :
      (ns : Namespace) (k j : Key) (v : Value) (w : W)
      → k ≢ j
      → lookup (put ns k v w) ns j ≡ lookup w ns j
  pub lookup-date_now : (w : W) → lookup (p.date_now w).1 ≡ lookup w
  pub lookup-math_random : (w : W) → lookup (p.math_random w).1 ≡ lookup w
  pub lookup-random_uuid : (w : W) → lookup (p.random_uuid w).1 ≡ lookup w

module _ {W : Type 0} {p : Platform W} (kv : KvLaws p) where
  -- A write for an hour.
  pub kv_put_hour :
      (ns : Namespace) (k : Key) (v : Value) (w : W)
      → p.kv_put ns k v (some 3600) w ≡ (ok tt, kv.put ns k v w)
  kv_put_hour ns k v w = kv.kv_put_for ns k v 3600 w (omega arith)

  -- The value under a key of the waiting room.
  abbrev pub value_at : W → Key → Option Value
  value_at w k = kv.lookup w waiting_room_kv k

  -- The queue under a key; none stored is an empty one.
  abbrev pub queue_at : W → Key → List Entry
  queue_at w k = get_or (as_entries (value_at w k)) []

  -- Writes under one key seen from another.
  module _ (event_id : String) (v : Value) (w : W) where
    pub value-put_self :
        (k : Key) → kv.lookup (kv.put waiting_room_kv k v w) waiting_room_kv k ≡ some v
    value-put_self k = kv.lookup-put_self waiting_room_kv k v w

    pub pool-put_active :
        kv.lookup
          (kv.put waiting_room_kv (active_key event_id) v w)
          waiting_room_kv
          (pool_key event_id)
        ≡ kv.lookup w waiting_room_kv (pool_key event_id)
    pool-put_active = kv.lookup-put_ne waiting_room_kv _ _ v w (λ e. cc)

    pub pool-put_admitted :
        kv.lookup
          (kv.put waiting_room_kv (admitted_key event_id) v w)
          waiting_room_kv
          (pool_key event_id)
        ≡ kv.lookup w waiting_room_kv (pool_key event_id)
    pool-put_admitted = kv.lookup-put_ne waiting_room_kv _ _ v w (λ e. cc)

    pub active-put_pool :
        kv.lookup
          (kv.put waiting_room_kv (pool_key event_id) v w)
          waiting_room_kv
          (active_key event_id)
        ≡ kv.lookup w waiting_room_kv (active_key event_id)
    active-put_pool = kv.lookup-put_ne waiting_room_kv _ _ v w (λ e. cc)

    pub active-put_admitted :
        kv.lookup
          (kv.put waiting_room_kv (admitted_key event_id) v w)
          waiting_room_kv
          (active_key event_id)
        ≡ kv.lookup w waiting_room_kv (active_key event_id)
    active-put_admitted = kv.lookup-put_ne waiting_room_kv _ _ v w (λ e. cc)

    pub admitted-put_active :
        kv.lookup
          (kv.put waiting_room_kv (active_key event_id) v w)
          waiting_room_kv
          (admitted_key event_id)
        ≡ kv.lookup w waiting_room_kv (admitted_key event_id)
    admitted-put_active = kv.lookup-put_ne waiting_room_kv _ _ v w (λ e. cc)

    pub admitted-put_pool :
        kv.lookup
          (kv.put waiting_room_kv (pool_key event_id) v w)
          waiting_room_kv
          (admitted_key event_id)
        ≡ kv.lookup w waiting_room_kv (admitted_key event_id)
    admitted-put_pool = kv.lookup-put_ne waiting_room_kv _ _ v w (λ e. cc)

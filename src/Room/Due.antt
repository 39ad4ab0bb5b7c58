-- ===== src/Room/Due.antt =====
-- Which pools the scheduled sweep shuffles, without Redis.
use crowdtic.Base.{
  ℕ, String, ◌≡◌, ◌≤◌, ◌<◌, refl, inl, inr, false, Bool-cases, Option, none, some, ok, ltb, arith,
  continue-pure,
}
use crowdtic.Platform.{Platform, meta_key}
use crowdtic.Env.{Env}
use crowdtic.Redis.{enabled}
use crowdtic.Room.Guards.{as_on_sale, sale_time, get_event_meta, redis_sale_time, kv_sale_time}
use crowdtic.Room.Pool.{maybe_shuffle_pool}
use crowdtic.Room.Schedule.{sweep_due, sweep_one}
use crowdtic.Room.Store.{KvLaws, value_at}

module _ {W : Type 0} {p : Platform W} (kv : KvLaws p) (env : Env) (off : enabled env ≡ false)
    (event_id : String) where
  -- The start of the sale, as it is stored with the event.
  abbrev pub sale_at : W → Option ℕ
  sale_at w = sale_time p env (as_on_sale (value_at kv w (meta_key event_id)))

  abbrev pub now_at : W → ℕ
  now_at w = (p.date_now w).0

  -- What the sweep makes of one event.
  pub data Swept (w : W) : W → Type 0 where
    unscheduled : sale_at w ≡ none → Swept w w
    early : (t : ℕ) → sale_at w ≡ some t → now_at w < t → Swept w (p.date_now w).1
    due :
        (t : ℕ)
        → sale_at w ≡ some t
        → t ≤ now_at w
        → Swept w (maybe_shuffle_pool p env event_id (p.date_now w).1).1

  get_event_meta_lem : (w : W) → get_event_meta p env event_id w ≡ (ok (sale_at w), w)
  unfolding get_event_meta redis_sale_time kv_sale_time
  get_event_meta_lem w = rw (off, kv.kv_get_lem) refl

  sweep_due-Swept :
      (w : W) (o : Option ℕ) → sale_at w ≡ o → Swept w (sweep_due p env event_id o w).1
  unfolding sweep_due
  sweep_due-Swept w none e = unscheduled e
  sweep_due-Swept w (some t) e = elim (Bool-cases (ltb (now_at w) t)) [
    | inl soon ↦ rw soon (early t e (ground arith))
    | inr begun ↦
        let shuffled = maybe_shuffle_pool p env event_id (p.date_now w).1 in
        rw (begun, continue-pure shuffled.0 shuffled.1 tt) (due t e (ground arith))
  ]

  -- Without Redis, the sweep leaves an event alone that has no readable start of its sale, reads the
  -- clock and does no more for one whose sale has not begun, and for any other it does exactly what
  -- the shuffle of its pool does.
  pub sweep_one-Swept : (w : W) → Swept w (sweep_one p env event_id w).1
  unfolding sweep_one
  sweep_one-Swept w = rw (get_event_meta_lem w) (sweep_due-Swept w (sale_at w) refl)

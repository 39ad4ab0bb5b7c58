-- ===== src/Stock/Commit.antt =====
-- redis/lua/commit.lua: the seats of a hold become sold, or nothing is done.
use crowdtic.Base.{
  ℕ, suc, ◌+◌, ◌*◌, ◌/◌, ◌==◌, String, Bool, not, ◌&&◌, Option, none, some, List, [], ◌∷◌, length,
  is_empty, get_or, if◌then◌else◌,
}
use crowdtic.Base.Int.{ℤ, pos, ◌-ℤ◌, ltb_ℤ, or_zero}
use crowdtic.Env.{is_set}
use crowdtic.Stock.Calls.{
  Calls, inventory, seat, hold_key, order_of_hold, order_key, status, held_by, hold_id, expires_at,
  sold_at, sold_by, held, sold, version,
}
use crowdtic.Stock.Hold.{is}

-- KEYS and ARGV, of which each may be missing.
pub record CommitArgs : Type 0 where
  pub inv_key : String
  pub seat_keys : List String
  pub hold : Option String
  pub user : Option String
  pub event : Option String
  pub order : Option String
  pub sold_at_ms : Option String

pub data CommitReply : Type 0 where
  ok_sold : String → ℕ → String → CommitReply
  already_committed : String → CommitReply
  hold_id_required user_id_required event_id_required no_seats inv_not_found : CommitReply
  hold_not_found : CommitReply
  seat_not_held : String → Option String → CommitReply
  hold_mismatch user_mismatch seat_already_sold : String → CommitReply

-- The validation of the seats: how many are sold already, or an error.
pub data Checked : Type 0 where
  fine : ℕ → Checked
  failed : CommitReply → Checked

-- The arguments that have to be there.
pub record Buyer : Type 0 where
  pub hold : String
  pub user : String
  pub event : String

-- A seat that neither is sold nor was found held.
abbrev pub not_held : Bool → ℕ → String → Option String → CommitReply
not_held hold_exists already s st =
    if not hold_exists && already == 0 then hold_not_found else seat_not_held s st

-- `decr`: at most what the inventory counts as held.
abbrev pub decrement : ℤ → ℤ → ℤ
decrement held_val need = if ltb_ℤ held_val need then held_val else need

abbrev pub order_of : CommitArgs → Option String
order_of a = if is_set a.order then a.order else none

module _ {W : Type 0} (r : Calls W) where
  -- The replay of a commit that the order's keys remember.
  unfoldable pub replayed : Buyer → Option String → W → Option CommitReply
  replayed b none w = none
  replayed b (some order) w = elim (r.get (order_of_hold b.event b.hold) w) [
    | some existing ↦ some (already_committed existing)
    | none ↦
        if is (r.get (order_key b.event order) w) b.hold
        then some (already_committed order)
        else none
  ]

  unfoldable pub check_seats : Buyer → Bool → List String → ℕ → W → Checked
  check_seats b hold_exists [] already w = fine already
  check_seats b hold_exists (s ∷ ss) already w =
      let st = r.hget (seat s) status w in
      let hid = r.hget (seat s) hold_id w in
      let hb = r.hget (seat s) held_by w in
      let sold_before = is st "SOLD" in
      let rest = check_seats b hold_exists ss (if sold_before then suc already else already) w in
      if sold_before
      then (if is hid b.hold && is hb b.user then rest else failed (seat_already_sold s))
      else (if not (is st "HELD")
          then failed (not_held hold_exists already s st)
          else (if not (is hid b.hold)
              then failed (hold_mismatch s)
              else (if not (is hb b.user) then failed (user_mismatch s) else rest)))

  -- `sold_at`: what was given, or the milliseconds of `TIME`.
  unfoldable pub stamp : Option String → W → String
  stamp given w =
      if is_set given
      then get_or given ""
      else r.tostring ((r.time w).0 * 1000 + (r.time w).1 / 1000)

  unfoldable pub sell_one : String → String → String → W → W
  sell_one user ts s w =
      if is (r.hget (seat s) status w) "HELD"
      then r.hincrby (seat s) version (pos 1) (
          r.persist (seat s) (
            r.hdel (seat s) (expires_at ∷ [])
              (r.hmset (seat s) ((status, "SOLD") ∷ (sold_at, ts) ∷ (sold_by, user) ∷ []) w)))
      else w

  unfoldable pub sell_seats : String → String → List String → W → W
  unfolding sell_one
  sell_seats user ts [] w = w
  sell_seats user ts (s ∷ ss) w = sell_seats user ts ss (sell_one user ts s w)

  unfoldable pub take_off : String → ℤ → W → W
  take_off inv need w =
      let decr = decrement (or_zero (r.hget_number (inventory inv) held w)) need in
      if ltb_ℤ (pos 0) decr then r.hincrby (inventory inv) held (pos 0 -ℤ decr) w else w

  -- The keys that later replays find, kept for a day.
  unfoldable pub remember : Buyer → Option String → W → W
  remember b order w =
      if is_set order
      then r.set_ex (order_key b.event (get_or order "")) b.hold 86400
          (r.set_ex (order_of_hold b.event b.hold) (get_or order "") 86400 w)
      else w

  unfoldable pub sell : CommitArgs → Buyer → W → CommitReply × W
  unfolding sell_seats take_off remember stamp
  sell a b w =
      let need = pos (length a.seat_keys) in
      let w₁ = sell_seats b.user (stamp a.sold_at_ms w) a.seat_keys w in
      let w₂ = r.hincrby (inventory a.inv_key) sold need (take_off a.inv_key need w₁) in
      let w₃ = r.del (hold_key b.event b.hold) w₂ in
      (ok_sold b.hold (length a.seat_keys) (get_or a.order ""), remember b a.order w₃)

  unfoldable pub after_check : CommitArgs → Buyer → W → Checked → CommitReply × W
  unfolding sell remember
  after_check a b w (failed e) = (e, w)
  after_check a b w (fine already) =
      if already == length a.seat_keys
      then (already_committed (get_or a.order ""), remember b a.order w)
      else sell a b w

  unfoldable pub commit_new : CommitArgs → Buyer → W → Option CommitReply → CommitReply × W
  unfolding check_seats after_check
  commit_new a b w (some reply) = (reply, w)
  commit_new a b w none =
      after_check a b w (check_seats b (r.exists (hold_key b.event b.hold) w) a.seat_keys 0 w)

  unfoldable pub commit_for : CommitArgs → Buyer → W → CommitReply × W
  unfolding replayed commit_new
  commit_for a b w =
      if is_empty a.seat_keys
      then (no_seats, w)
      else (if not (r.exists (inventory a.inv_key) w)
          then (inv_not_found, w)
          else commit_new a b w (replayed b (order_of a) w))

  unfoldable pub commit_script : CommitArgs → W → CommitReply × W
  unfolding commit_for
  commit_script a w =
      if not (is_set a.hold)
      then (hold_id_required, w)
      else (if not (is_set a.user)
          then (user_id_required, w)
          else (if not (is_set a.event)
              then (event_id_required, w)
              else commit_for a
                  (record {
                    hold = get_or a.hold "";
                    user = get_or a.user "";
                    event = get_or a.event "";
                  })
                  w))

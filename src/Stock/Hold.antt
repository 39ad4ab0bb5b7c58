-- ===== src/Stock/Hold.antt =====
-- redis/lua/hold.lua: some seats are held for a user, or nothing is done.
use crowdtic.Base.{
  ℕ, ◌*◌, String, str_eq, Bool, false, Option, none, some, List, [], ◌∷◌, length, if◌then◌else◌,
}
use crowdtic.Base.Int.{ℤ, pos, ◌+ℤ◌, ◌-ℤ◌, ltb_ℤ, or_zero}
use crowdtic.Stock.Calls.{
  Calls, inventory, seat, user_limit, hold_key, Field, status, held_by, hold_id, expires_at,
  user_id, seats, available, held,
}

-- KEYS and ARGV; what the script reads by `tonumber` is a number.
pub record HoldArgs : Type 0 where
  pub inv_key : String
  pub seat_keys : List String
  pub user : String
  pub hold : String
  pub ttl : ℕ
  pub expires_at_ms : String
  pub max_per_user : ℤ
  pub event : String

pub data HoldReply : Type 0 where
  ok_held : String → ℕ → HoldReply
  inv_not_found sold_out limit_exceeded : HoldReply
  seat_taken : String → HoldReply

-- A missing field is no text.
abbrev pub is : Option String → String → Bool
is none s = false
is (some t) s = str_eq t s

abbrev pub held_fields : HoldArgs → List (Field × String)
held_fields a =
    (status, "HELD") ∷ (held_by, a.user) ∷ (hold_id, a.hold) ∷ (expires_at, a.expires_at_ms) ∷ []

abbrev pub need : HoldArgs → ℤ
need a = pos (length a.seat_keys)

module _ {W : Type 0} (r : Calls W) where
  -- The first of the seats that is not available.
  unfoldable pub first_taken : List String → W → Option String
  first_taken [] w = none
  first_taken (s ∷ ss) w =
      let rest = first_taken ss w in
      if is (r.hget (seat s) status w) "AVAILABLE" then rest else some s

  unfoldable pub mark_held : HoldArgs → List String → W → W
  mark_held a [] w = w
  mark_held a (s ∷ ss) w =
      mark_held a ss (r.pexpire (seat s) (a.ttl * 1000) (r.hmset (seat s) (held_fields a) w))

  -- The writes of a hold that is granted.
  unfoldable pub take_seats : HoldArgs → W → W
  unfolding mark_held
  take_seats a w =
      let w₁ = mark_held a a.seat_keys w in
      let w₂ = r.hincrby (inventory a.inv_key) available (pos 0 -ℤ need a) w₁ in
      let w₃ = r.hincrby (inventory a.inv_key) held (need a) w₂ in
      let w₄ = r.incrby (user_limit a.event a.user) (need a) w₃ in
      let w₅ = r.expire (user_limit a.event a.user) 86400 w₄ in
      let w₆ =
        r.hmset (hold_key a.event a.hold)
          ((user_id, a.user) ∷ (seats, r.concat a.seat_keys) ∷ (expires_at, a.expires_at_ms) ∷ [])
          w₅ in
      r.expire (hold_key a.event a.hold) a.ttl w₆

  unfoldable pub hold_free : HoldArgs → W → Option String → HoldReply × W
  hold_free a w none = (ok_held a.hold (length a.seat_keys), take_seats a w)
  hold_free a w (some s) = (seat_taken s, w)

  unfoldable pub hold_counted : HoldArgs → W → Option ℤ → HoldReply × W
  unfolding hold_free
  hold_counted a w none = (inv_not_found, w)
  hold_counted a w (some n) =
      if ltb_ℤ n (need a)
      then (sold_out, w)
      else (if ltb_ℤ a.max_per_user (or_zero (r.get_number (user_limit a.event a.user) w) +ℤ need a)
          then (limit_exceeded, w)
          else hold_free a w (first_taken a.seat_keys w))

  unfoldable pub hold_script : HoldArgs → W → HoldReply × W
  unfolding hold_counted
  hold_script a w = hold_counted a w (r.hget_number (inventory a.inv_key) available w)

-- ===== src/Stock/Release.antt =====
-- redis/lua/release.lua: the seats of a hold become available again.
use crowdtic.Base.{ℕ, String, List, [], ◌∷◌, length, if◌then◌else◌}
use crowdtic.Base.Int.{pos, ◌-ℤ◌}
use crowdtic.Stock.Calls.{
  Calls, inventory, seat, user_limit, hold_key, status, held_by, hold_id, expires_at, available,
  held,
}
use crowdtic.Stock.Hold.{is}

pub record ReleaseArgs : Type 0 where
  pub inv_key : String
  pub seat_keys : List String
  pub hold : String
  pub user : String
  pub event : String

-- The one reply, `RELEASED` with the number of seats.
pub data ReleaseReply : Type 0 where
  released : ℕ → ReleaseReply

module _ {W : Type 0} (r : Calls W) where
  unfoldable pub free_one : String → String → W → W
  free_one hold s w =
      if is (r.hget (seat s) hold_id w) hold
      then r.persist (seat s) (
          r.hdel (seat s) (held_by ∷ hold_id ∷ expires_at ∷ [])
            (r.hmset (seat s) ((status, "AVAILABLE") ∷ []) w))
      else w

  unfoldable pub free_seats : String → List String → W → W
  unfolding free_one
  free_seats hold [] w = w
  free_seats hold (s ∷ ss) w = free_seats hold ss (free_one hold s w)

  unfoldable pub release_script : ReleaseArgs → W → ReleaseReply × W
  unfolding free_seats
  release_script a w =
      let need = pos (length a.seat_keys) in
      let w₁ = free_seats a.hold a.seat_keys w in
      let w₂ = r.hincrby (inventory a.inv_key) available need w₁ in
      let w₃ = r.hincrby (inventory a.inv_key) held (pos 0 -ℤ need) w₂ in
      let w₄ = r.incrby (user_limit a.event a.user) (pos 0 -ℤ need) w₃ in
      (released (length a.seat_keys), r.del (hold_key a.event a.hold) w₄)

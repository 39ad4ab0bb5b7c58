-- ===== src/Storefront/Picks.antt =====
-- Which seats are picked: `toggleSeat`, the buttons of the map, and CLEAR.
pub mod Limit
use crowdtic.Base.{
  ℕ, String, Bool, false, not, ◌||◌, Option, none, some, List, [], ◌∷◌, ◌++◌, length, leb, str_eq,
  if◌then◌else◌,
}
use crowdtic.Storefront.State.{Event, Seat, Detail, Home, current_event}
use crowdtic.Storefront.Load.{number_or}

unfoldable pub includes : List String → String → Bool
includes [] id = false
includes (x ∷ xs) id = str_eq x id || includes xs id

-- `prev.filter((x) => x !== id)`
unfoldable pub leave_out : String → List String → List String
leave_out id [] = []
leave_out id (x ∷ xs) = let rest = leave_out id xs in if str_eq x id then rest else x ∷ rest

abbrev pub detail_max : Option Detail → Option ℕ
detail_max none = none
detail_max (some d) = some d.max_per_user

-- `detail?.max_per_user || event.max_per_user`
unfoldable pub max_picks : Event → Home → ℕ
max_picks default h = number_or (detail_max h.detail) (current_event default h).max_per_user

-- The function that `setPicked` is given.
unfoldable pub toggle : ℕ → String → List String → List String
unfolding includes leave_out
toggle most id prev =
    if includes prev id
    then leave_out id prev
    else if leb most (length prev)
    then prev
    else prev ++ id ∷ []

unfoldable pub toggle_seat : Event → String → Home → Home
toggle_seat default id h = record h { picked = toggle (max_picks default h) id h.picked }

-- The button of a seat is disabled unless the seat is available.
abbrev pub is_taken : Seat → Bool
is_taken s = not (str_eq s.status "AVAILABLE")

unfoldable pub click_seat : Event → Seat → Home → Home
click_seat default s h = if is_taken s then h else toggle_seat default s.id h

unfoldable pub clear_picks : Home → Home
clear_picks h = record h { picked = [] }

-- ===== src/Storefront/View.antt =====
-- What the page shows of its state, where it computes: prices, places, and the looks of a seat.
use crowdtic.Base.{ℕ, ◌*◌, String, Option, none, some, List, length, is_empty, if◌then◌else◌}
use crowdtic.Storefront.State.{Seat, QueueView, answered, fallback, Home}
use crowdtic.Storefront.Picks.{includes, is_taken}

pub data SeatLook : Type 0 where
  taken picked free : SeatLook

unfoldable pub look_of : List String → Seat → SeatLook
look_of picks s = if is_taken s then taken else if includes picks s.id then picked else free

-- `(picked.length || 0) * 150_000_000`
abbrev pub vip_price : ℕ
vip_price = 150000000

unfoldable pub total_estimate : Home → ℕ
total_estimate h = length h.picked * vip_price

-- `queue?.position ?? (token ? "ADMITTED" : "—")`
pub data Place : Type 0 where
  at : ℕ → Place
  admitted unknown : Place

abbrev pub position_in : Option QueueView → Option ℕ
position_in none = none
position_in (some (answered r)) = r.position
position_in (some (fallback t)) = some 1

unfoldable pub place_of : Home → Place
place_of h = elim (position_in h.queue) [
  | some n ↦ at n
  | none ↦ if is_empty h.token then unknown else admitted
]

-- ===== src/Storefront/Load.antt =====
-- The page's reads of the read service: what each answer, or its failure, sets.
use crowdtic.Base.{
  ℕ, String, Bool, ◌||◌, Option, none, some, List, [], ◌∷◌, take, get_or, is_blank, is_infix, codes,
  str_eq, ◌==◌, if◌then◌else◌,
}
use crowdtic.Storefront.State.{Event, Inventory, Seat, Detail, Home, current_event}

-- `j` of an event's answer; a field that is missing is `none`.
pub record DetailBody : Type 0 where
  pub inventory : Option (List Inventory)
  pub max_per_user : Option ℕ
  pub on_sale_at : Option String
  pub title : Option String

-- `a || b` for numbers and for texts, where `a` may be missing.
abbrev pub number_or : Option ℕ → ℕ → ℕ
number_or none b = b
number_or (some a) b = if a == 0 then b else a

abbrev pub text_or : Option String → String → String
text_or none b = b
text_or (some a) b = if is_blank a then b else a

-- `j.events?.length`, or a failure: `none`.
unfoldable pub events_loaded : Event → Option (List Event) → Home → Home
events_loaded default none h = record h { events = default ∷ [] }
events_loaded default (some []) h = record h { events = default ∷ [] }
events_loaded default (some (e ∷ es)) h = record h { events = e ∷ es; selected = e.id }

abbrev pub detail_of : Event → DetailBody → Detail
detail_of event j = record {
  inventory = get_or j.inventory [];
  max_per_user = number_or j.max_per_user 4;
  on_sale_at = text_or j.on_sale_at event.on_sale_at;
  title = text_or j.title event.title;
}

-- `event` is the one of the rendering that asked; nothing compares it with the present one.
unfoldable pub detail_loaded : Event → Option DetailBody → Home → Home
detail_loaded event none h = record h { detail = none }
detail_loaded event (some j) h = record h { detail = some (detail_of event j) }

-- The list of seats is cut at 2000. After a hold or a commit a failure changes nothing.
abbrev pub max_seats : ℕ
max_seats = 2000

unfoldable pub seats_loaded : Option (List Seat) → Home → Home
seats_loaded none h = record h { seats = [] }
seats_loaded (some seats) h = record h { seats = take max_seats seats }

-- `detail?.on_sale_at || event.on_sale_at`
abbrev pub detail_on_sale_at : Option Detail → Option String
detail_on_sale_at none = none
detail_on_sale_at (some d) = some d.on_sale_at

unfoldable pub on_sale_at : Event → Home → String
on_sale_at default h = text_or (detail_on_sale_at h.detail) (current_event default h).on_sale_at

abbrev pub is_category : String → Inventory → Bool
is_category id x = str_eq (get_or x.category_id "") id || is_infix (codes id) (codes x.key)

-- `detail?.inventory.find(…)`
unfoldable pub find_inventory : String → List Inventory → Option Inventory
unfolding is_infix codes
find_inventory id [] = none
find_inventory id (x ∷ xs) = if is_category id x then some x else find_inventory id xs

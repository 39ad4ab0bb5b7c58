-- ===== src/Storefront/State.antt =====
-- What the storefront page keeps (frontend/app/page.tsx): the `useState` cells of `Home`.
use crowdtic.Base.{ℕ, String, Option, none, some, List, [], ◌∷◌, get_or, str_eq, if◌then◌else◌}
use crowdtic.Http.{JoinReply}

-- `Event`, and `Inventory` with the one field of its record that the code looks up by name.
pub record Event : Type 0 where
  pub id : String
  pub title : String
  pub slug : String
  pub on_sale_at : String
  pub status : String
  pub max_per_user : ℕ

pub record Inventory : Type 0 where
  pub key : String
  pub category_id : Option String
  pub available : String
  pub sold : String

pub record Seat : Type 0 where
  pub id : String
  pub seat_number : String
  pub status : String
  pub category_id : String

pub record Detail : Type 0 where
  pub inventory : List Inventory
  pub max_per_user : ℕ
  pub on_sale_at : String
  pub title : String

-- The answers of the booking service, by the fields that the page reads; `none` is a missing one.
pub record Hold : Type 0 where
  pub hold_id : Option String
  pub ttl_sec : ℕ
  pub expires_at : String

pub record Paid : Type 0 where
  pub order_id : Option String
  pub status : Option String

-- What `setQueue` is given: the worker's answer, or the one made up without it.
pub data QueueView : Type 0 where
  answered : JoinReply → QueueView
  fallback : List ℕ → QueueView

-- `err`: the page's own texts, one made of a status, or the text of a failure.
pub data Notice : Type 0 where
  nothing need_token need_seats need_hold : Notice
  hold_status commit_status : ℕ → Notice
  message : String → Notice

pub data Phase : Type 0 where
  idle holding held committing : Phase

-- Tokens are lists of code units; the empty one is none.
pub record Home : Type 0 where
  pub events : List Event
  pub selected : String
  pub detail : Option Detail
  pub seats : List Seat
  pub picked : List String
  pub token : List ℕ
  pub queue : Option QueueView
  pub hold_res : Option Hold
  pub commit_res : Option Paid
  pub err : Notice
  pub phase : Phase

abbrev pub fallback_id : String
fallback_id = "550e8400-e29b-41d4-a716-446655440010"

abbrev pub vip_id : String
vip_id = "550e8400-e29b-41d4-a716-446655440020"

abbrev pub festival_id : String
festival_id = "550e8400-e29b-41d4-a716-446655440021"

-- `EVENT_FALLBACK`; its date is computed when the page loads.
abbrev pub event_fallback : String → Event
event_fallback on_sale_at = record {
  id = fallback_id;
  title = "Mega Concert — Flash Sale Demo";
  slug = "mega-concert-2026";
  on_sale_at = on_sale_at;
  status = "SCHEDULED";
  max_per_user = 4;
}

-- The cells as the page is first shown.
unfoldable pub home : Home
home = record {
  events = [];
  selected = fallback_id;
  detail = none;
  seats = [];
  picked = [];
  token = [];
  queue = none;
  hold_res = none;
  commit_res = none;
  err = nothing;
  phase = idle;
}

unfoldable pub find_event : String → List Event → Option Event
find_event id [] = none
find_event id (e ∷ es) = if str_eq e.id id then some e else find_event id es

-- `events[0] || EVENT_FALLBACK`
abbrev pub first_event : Event → List Event → Event
first_event default [] = default
first_event default (e ∷ es) = e

-- The `event` of the page: the selected one, the first, or the fallback.
unfoldable pub current_event : Event → Home → Event
current_event default h = get_or (find_event h.selected h.events) (first_event default h.events)

-- `setSelected(e.id)`
unfoldable pub select_event : String → Home → Home
select_event id h = record h { selected = id }

-- ===== src/Storefront/Screen.antt =====
-- What the page renders of its state: captions, badges, the board, the cards, the map and the
-- panels. Dates, prices as money and the markup itself are left out.
pub mod Fresh
pub mod Shown
use crowdtic.Base.{
  ℕ, String, Bool, not, Option, none, some, List, [], ◌∷◌, ◌++◌, map, length, take, is_empty,
  is_blank, get_or, codes, str_eq, ◌==◌, if◌then◌else◌,
}
use crowdtic.Storefront.State.{
  Event, Seat, Detail, Hold, Paid, Notice, Phase, idle, holding, held, committing, QueueView,
  answered, fallback, Home, current_event,
}
use crowdtic.Storefront.Load.{text_or, number_or}
use crowdtic.Storefront.Picks.{is_taken}
use crowdtic.Storefront.Booking.{find_seat, is_committing}
use crowdtic.Storefront.Countdown.{decimal}
use crowdtic.Storefront.View.{SeatLook, look_of}

-- `detail?.title || event.title`
abbrev pub detail_title : Option Detail → Option String
detail_title none = none
detail_title (some d) = some d.title

unfoldable pub title : Event → Home → String
title default h = text_or (detail_title h.detail) (current_event default h).title

-- `token ? "TOKEN AKTIF" : "BELUM JOIN"`, `disabled={!token}` negated, and the caption of the join.
unfoldable pub has_token : Home → Bool
has_token h = not (is_empty h.token)

-- The first 54 characters of the token, if there is one.
unfoldable pub token_head : Home → Option (List ℕ)
token_head h = if is_empty h.token then none else some (take 54 h.token)

-- `.padStart(4, "0")`
abbrev pub pad_four : List ℕ → List ℕ
pad_four [] = b'0' ∷ b'0' ∷ b'0' ∷ b'0' ∷ []
pad_four (a ∷ []) = b'0' ∷ b'0' ∷ b'0' ∷ a ∷ []
pad_four (a ∷ b ∷ []) = b'0' ∷ b'0' ∷ a ∷ b ∷ []
pad_four (a ∷ b ∷ c ∷ []) = b'0' ∷ a ∷ b ∷ c ∷ []
pad_four s = s

unfoldable pub stub_number : Home → List ℕ
stub_number h = pad_four (decimal (length h.picked))

-- The board: `none` is shown as a dash. The worker's answer to a join has no size of the queue.
unfoldable pub pool_shown : Option QueueView → Option ℕ
pool_shown (some (answered r)) = some r.pool_size
pool_shown _ = none

unfoldable pub active_shown : Option QueueView → Option ℕ
active_shown (some (fallback t)) = some 1
active_shown _ = none

pub data WaitNote : Type 0 where
  seconds : ℕ → WaitNote
  ready join_first : WaitNote

abbrev pub wait_of : Option QueueView → Option ℕ
wait_of (some (answered r)) = r.estimated_wait_sec
wait_of _ = none

unfoldable pub wait_note : Home → WaitNote
wait_note h =
    let n = get_or (wait_of h.queue) 0 in
    let without = if is_empty h.token then join_first else ready in
    if n == 0 then without else seconds n

-- A card of the catalogue.
pub record Card : Type 0 where
  pub is_selected : Bool
  pub is_scheduled : Bool
  pub caption : String

unfoldable pub card : Home → Event → Card
card h e = record {
  is_selected = str_eq e.id h.selected;
  is_scheduled = str_eq e.status "SCHEDULED";
  caption = e.title;
}

-- `id.slice(0, 8)`, for texts of the Basic Multilingual Plane.
abbrev pub head_of : String → List ℕ
head_of id = take 8 (codes id)

-- A seat of the map.
pub record SeatButton : Type 0 where
  pub look : SeatLook
  pub enabled : Bool

unfoldable pub seat_button : Home → Seat → SeatButton
seat_button h s = record { look = look_of h.picked s; enabled = not (is_taken s) }

-- The line under the map: the number of each seat picked, or the head of its id.
abbrev pub number_of : Option Seat → Option String
number_of none = none
number_of (some s) = some s.seat_number

unfoldable pub pick_shown : Home → String → List ℕ
pick_shown h id =
    let n = get_or (number_of (find_seat id h.seats)) "" in
    if is_blank n then head_of id else codes n

unfoldable pub picks_line : Home → List (List ℕ)
unfolding pick_shown
picks_line h = map (pick_shown h) h.picked

-- The caption of the button of `doHold`; without an id of the hold the rendering throws.
pub data HoldCaption : Type 0 where
  holding_now hold_ten_minutes : HoldCaption
  held_for : List ℕ → ℕ → HoldCaption

abbrev pub held_caption : Option String → ℕ → Option HoldCaption
held_caption none ttl = none
held_caption (some id) ttl = some (held_for (head_of id) ttl)

abbrev pub resting_caption : Option Hold → Option HoldCaption
resting_caption none = some hold_ten_minutes
resting_caption (some r) = held_caption r.hold_id r.ttl_sec

abbrev pub caption_of : Phase → Option Hold → Option HoldCaption
caption_of holding o = some holding_now
caption_of _ o = resting_caption o

unfoldable pub hold_caption : Home → Option HoldCaption
hold_caption h = caption_of h.phase h.hold_res

-- That of `doCommit`.
pub data CommitCaption : Type 0 where
  committing_now pay : CommitCaption

unfoldable pub commit_caption : Home → CommitCaption
commit_caption h = if is_committing h.phase then committing_now else pay

-- The panel HOLD OK, and the panel PAID with its status.
unfoldable pub hold_panel : Home → Option Hold
hold_panel h = h.hold_res

abbrev pub paid_status : Option Paid → Option String
paid_status none = none
paid_status (some p) = some (text_or p.status "PAID")

unfoldable pub paid_panel : Home → Option String
paid_panel h = paid_status h.commit_res

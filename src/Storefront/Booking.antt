-- ===== src/Storefront/Booking.antt =====
-- `doHold` and `doCommit`: what each does up to its request, and what it does with the answer.
use crowdtic.Base.{
  ℕ, String, Bool, true, false, not, ◌&&◌, Option, none, some, List, [], ◌∷◌, is_empty, is_blank,
  get_or, str_eq, if◌then◌else◌,
}
use crowdtic.Env.{is_set}
use crowdtic.Storefront.State.{
  Seat, Hold, Paid, Notice, nothing, need_token, need_seats, need_hold, hold_status, commit_status,
  message, Phase, idle, holding, held, committing, Home, vip_id,
}

pub record HoldRequest : Type 0 where
  pub token : List ℕ
  pub event_id : String
  pub category_id : String
  pub seat_ids : List String
  pub idempotency_key : String

pub record CommitRequest : Type 0 where
  pub token : List ℕ
  pub hold_id : String
  pub idempotency_key : String
  pub seat_ids : List String

-- What an awaited `fetch` with its `res.json()` brings: a throw, or `res.ok`, `res.status`, the
-- `error` and `warning` of the body, and the body itself.
pub data Answer (B : Type 0) : Type 0 where
  broken : String → Answer B
  answered : Bool → ℕ → Option String → Option String → B → Answer B

unfoldable pub find_seat : String → List Seat → Option Seat
find_seat id [] = none
find_seat id (s ∷ ss) = if str_eq s.id id then some s else find_seat id ss

abbrev pub category_of : Option Seat → String
category_of none = vip_id
category_of (some s) = if is_blank s.category_id then vip_id else s.category_id

-- The category is that of the first seat picked.
abbrev pub first_category : List Seat → List String → String
first_category seats [] = vip_id
first_category seats (id ∷ ids) = category_of (find_seat id seats)

-- `doHold` up to its request, with the key that `crypto.randomUUID()` gives.
unfoldable pub hold_start : String → Home → Home × Option HoldRequest
unfolding find_seat
hold_start key h =
    if is_empty h.token
    then (record h { err = need_token }, none)
    else if is_empty h.picked
    then (record h { err = need_seats }, none)
    else (
      record h { phase = holding; err = nothing; hold_res = none; commit_res = none },
      some (record {
        token = h.token;
        event_id = h.selected;
        category_id = first_category h.seats h.picked;
        seat_ids = h.picked;
        idempotency_key = key;
      }),
    )

-- `j.error || …` and the like: the first text that is not empty.
abbrev pub first_text : Option String → Notice → Notice
first_text none n = n
first_text (some s) n = if is_blank s then n else message s

unfoldable pub hold_done : Answer Hold → Home → Home
hold_done (broken e) h = record h { err = message e; phase = idle }
hold_done (answered true status error warning j) h = record h { hold_res = some j; phase = held }
hold_done (answered false status error warning j) h = record h {
  err = first_text error (hold_status status);
  phase = idle;
}

abbrev pub hold_id_of : Option Hold → String
hold_id_of none = ""
hold_id_of (some r) = get_or r.hold_id ""

unfoldable pub commit_start : String → Home → Home × Option CommitRequest
commit_start key h =
    if is_blank (hold_id_of h.hold_res) then (record h { err = need_hold }, none) else (
      record h { phase = committing; err = nothing },
      some (record {
        token = h.token;
        hold_id = hold_id_of h.hold_res;
        idempotency_key = key;
        seat_ids = h.picked;
      }),
    )

-- `res.ok || j.order_id` goes on.
unfoldable pub commit_done : Answer Paid → Home → Home
commit_done (broken e) h = record h { err = message e; phase = held }
commit_done (answered ok status error warning j) h =
    if not ok && not (is_set j.order_id)
    then record h {
      err = first_text error (first_text warning (commit_status status));
      phase = held;
    }
    else record h { commit_res = some j; phase = idle; picked = []; hold_res = none }

abbrev pub is_idle : Phase → Bool
is_idle idle = true
is_idle _ = false

abbrev pub is_committing : Phase → Bool
is_committing committing = true
is_committing _ = false

abbrev pub has_hold : Option Hold → Bool
has_hold none = false
has_hold (some r) = true

-- `disabled={phase !== "idle"}` and `disabled={!holdRes || phase === "committing"}`, negated.
unfoldable pub can_hold : Home → Bool
can_hold h = is_idle h.phase

unfoldable pub can_commit : Home → Bool
can_commit h = has_hold h.hold_res && not (is_committing h.phase)

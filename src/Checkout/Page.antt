-- ===== src/Checkout/Page.antt =====
-- `CheckoutInner`: its state, `ensureToken`, `hold` and `commit`.
use crowdtic.Base.{
  ℕ, ◌/◌, String, true, false, not, ◌&&◌, Option, none, some, List, [], take, is_empty, is_blank,
  get_or, if◌then◌else◌,
}
use crowdtic.Env.{is_set}
use crowdtic.Token.Base64.{Crypto}
use crowdtic.Token.Sign.{seal}
use crowdtic.Storefront.State.{
  Notice, nothing, need_seats, need_hold, hold_status, commit_status, message, fallback_id, vip_id,
}
use crowdtic.Storefront.Browser.{Browser}
use crowdtic.Storefront.Booking.{Answer, broken, answered, first_text}
use crowdtic.Storefront.Join.{dev_secret, dev_claims, user_of}
use crowdtic.Checkout.Input.{seat_list, quick_pick}

pub record Seat : Type 0 where
  pub id : List ℕ
  pub seat_number : String
  pub status : String

-- The bodies of the booking service's answers, by the fields that the page reads.
pub record Body : Type 0 where
  pub hold_id : Option String
  pub order_id : Option String

-- `result`: the body of a hold with the seats asked for, or the body of a commit.
pub data Shown : Type 0 where
  held : Body → List (List ℕ) → Shown
  paid : Body → Shown

pub record Checkout : Type 0 where
  pub cat_id : String
  pub seat_input : List ℕ
  pub seats : List Seat
  pub result : Option Shown
  pub token : List ℕ
  pub err : Notice

pub record HoldRequest : Type 0 where
  pub token : List ℕ
  pub event_id : String
  pub category_id : String
  pub seat_ids : List (List ℕ)
  pub idempotency_key : String

pub record CommitRequest : Type 0 where
  pub token : List ℕ
  pub hold_id : String
  pub idempotency_key : String
  pub seat_ids : List (List ℕ)

unfoldable pub checkout : Checkout
checkout = record {
  cat_id = vip_id;
  seat_input = [];
  seats = [];
  result = none;
  token = [];
  err = nothing;
}

-- `sp.get("event_id") || …`
unfoldable pub event_of : Option String → String
event_of param = if is_blank (get_or param "") then fallback_id else get_or param ""

-- The list of seats is cut at 80; a failure changes nothing.
unfoldable pub seats_loaded : Option (List Seat) → Checkout → Checkout
seats_loaded none s = s
seats_loaded (some seats) s = record s { seats = take 80 seats }

unfoldable pub pick : List ℕ → Checkout → Checkout
pick id s = record s { seat_input = quick_pick id s.seat_input }

unfoldable pub hold_done : List (List ℕ) → Answer Body → Checkout → Checkout
hold_done seats (broken e) s = record s { err = message e }
hold_done seats (answered true status error warning j) s = record s { result = some (held j seats) }
hold_done seats (answered false status error warning j) s = record s {
  err = first_text error (hold_status status);
}

-- `res.ok || j.order_id` goes on.
unfoldable pub commit_done : Answer Body → Checkout → Checkout
commit_done (broken e) s = record s { err = message e }
commit_done (answered ok status error warning j) s =
    if not ok && not (is_set j.order_id)
    then record s { err = first_text error (first_text warning (commit_status status)) }
    else record s { result = some (paid j) }

-- `result?.hold_id`
abbrev pub shown_hold : Option Shown → String
shown_hold none = ""
shown_hold (some (held j seats)) = get_or j.hold_id ""
shown_hold (some (paid j)) = get_or j.hold_id ""

module _ {W : Type 0} (c : Crypto) (b : Browser W) (event_id : String) where
  unfoldable pub sign_dev_token : String → String → W → List ℕ × W
  sign_dev_token user_id event w =
      let (now_ms, w₁) = b.date_now w in
      let (jti, w₂) = b.random_uuid w₁ in
      (seal c dev_secret (dev_claims user_id event (now_ms / 1000) jti), w₂)

  unfoldable pub load_token : Checkout → W → Checkout
  load_token s w = record s { token = get_or (b.stored_token w) [] }

  -- CLEAR
  unfoldable pub clear_token : Checkout → W → Checkout × W
  clear_token s w = (record s { token = [] }, b.drop_token w)

  unfoldable pub ensure_token : Checkout → W → List ℕ × Checkout × W
  unfolding sign_dev_token
  ensure_token s w =
      if is_empty s.token
      then (let (uid, w₁) = user_of b w in
          let (t, w₂) = sign_dev_token uid event_id w₁ in
          (t, record s { token = t }, b.store_token t w₂))
      else (s.token, s, w)

  -- `hold` up to its request.
  unfoldable pub hold : Checkout → W → Option HoldRequest × Checkout × W
  unfolding ensure_token
  hold s₀ w₀ =
      let (t, s, w) = ensure_token (record s₀ { err = nothing }) w₀ in
      let seats = seat_list s₀.seat_input in
      if is_empty seats
      then (none, record s { err = need_seats }, w)
      else (let (key, w') = b.random_uuid w in
          (
            some (record {
              token = t;
              event_id = event_id;
              category_id = s₀.cat_id;
              seat_ids = seats;
              idempotency_key = key;
            }),
            s,
            w',
          ))

  -- `commit` up to its request.
  unfoldable pub commit : Checkout → W → Option CommitRequest × Checkout × W
  unfolding ensure_token
  commit s₀ w₀ =
      let (t, s, w) = ensure_token (record s₀ { err = nothing }) w₀ in
      if is_blank (shown_hold s₀.result)
      then (none, record s { err = need_hold }, w)
      else (let (key, w') = b.random_uuid w in
          (
            some (record {
              token = t;
              hold_id = shown_hold s₀.result;
              idempotency_key = key;
              seat_ids = seat_list s₀.seat_input;
            }),
            s,
            w',
          ))

-- ===== src/Tests/Pages.antt =====
-- The theorems on the pages of the browser at concrete inputs.
use crowdtic.Base.{
  ℕ, ◌-◌, ◌≤◌, ◌<◌, ◌≡◌, ◌⊎◌, inr, refl, true, false, some, List, [], ◌∷◌, ◌++◌, arith, ok, codes,
  length_utf16, is_space, eq_iff, ◌≢◌,
}
use crowdtic.Token.Base64.{b64url_encode, to_url, strip_padding}
use crowdtic.Token.Sign.{seal}
use crowdtic.Middleware.Request.{extract_event_id, extract_token}
use crowdtic.Middleware.Enforce.{authenticated, pass_of, check_jti_allowlist, middleware}
use crowdtic.Storefront.State.{home, find_event, current_event}
use crowdtic.Storefront.Browser.{unreachable}
use crowdtic.Storefront.Join.{
  dev_claims, join_queue, join_done, fall_back, keep_token, sign_dev_queue_token, user_of,
  join_start,
}
use crowdtic.Storefront.Join.Forged.{middleware-join_queue, user_at}
use crowdtic.Storefront.Picks.{max_picks, click_seat, toggle_seat, includes}
use crowdtic.Storefront.Picks.Limit.{Clicked, click_seat-Clicked, AreDistinct}
use crowdtic.Storefront.Booking.{hold_start, commit_start, can_hold}
use crowdtic.Storefront.Countdown.{live, remaining, countdown, label}
use crowdtic.Storefront.Countdown.Exact.{IsClock, countdown_lem}
use crowdtic.Storefront.Session.{
  Session, Steps, here, next, opened, press_hold, pressed_hold, clicked, join_answered, rest,
}
use crowdtic.Storefront.Screen.Shown.{IsShown, Steps-IsShown}
use crowdtic.Storefront.Session.Life.{Edge, life}
use crowdtic.Storefront.Session.Lifecycle.{Steps-IsMove}
use crowdtic.Storefront.Session.Distinct.{Steps-AreDistinct}
use crowdtic.Storefront.Session.Held.{commit_start-click_seat, after_hold, asked_seats}
use crowdtic.Checkout.Input.{seat_list}
use crowdtic.Checkout.RoundTrip.{IsId, quick_picks, seat_list-quick_picks}
use crowdtic.Tests.Latin.{is_latin}
use crowdtic.Tests.World.{platform}
use crowdtic.Tests.Coder.{crypto, crypto-laws, parse-print}
use crowdtic.Tests.Data.{start}
use crowdtic.Tests.Shop.{
  browser, visit, event, seat_1, seat_2, with_seat, choosing, granted, forged, dev_env,
  forged_token, forged_request,
}

-- A seat is clicked, the worker cannot be reached, and the button of the hold is pressed.
abbrev chosen_seat : Session
chosen_seat = record { home = click_seat event seat_1 home; wait = rest }

abbrev with_token : Session
with_token = record {
  home = (join_done (crypto forged) browser "concert" "ana" unreachable chosen_seat.home visit).0;
  wait = rest;
}

with_token-can_hold : can_hold with_token.home ≡ true
unfolding can_hold join_done fall_back keep_token sign_dev_queue_token click_seat toggle_seat home
with_token-can_hold = refl

token-Steps : Steps (crypto forged) browser event opened with_token
unfolding opened
token-Steps =
    next (next here (clicked seat_1 opened))
      (join_answered "concert" "ana" unreachable visit chosen_seat)

visit-Steps : Steps (crypto forged) browser event opened (press_hold "k1" with_token)
visit-Steps = next token-Steps (pressed_hold "k1" with_token with_token-can_hold)

Steps-IsShown_example : IsShown (press_hold "k1" with_token)
Steps-IsShown_example = Steps-IsShown (crypto forged) browser event visit-Steps

Steps-IsMove_example :
    (life (press_hold "k1" with_token) ≡ life with_token)
    ⊎ Edge (life with_token) (life (press_hold "k1" with_token))
Steps-IsMove_example =
    Steps-IsMove (crypto forged) browser event token-Steps
      (pressed_hold "k1" with_token with_token-can_hold)

Steps-AreDistinct_example : AreDistinct (press_hold "k1" with_token).home.picked
Steps-AreDistinct_example = Steps-AreDistinct (crypto forged) browser event visit-Steps

click_seat-Clicked_example :
    Clicked (max_picks event with_seat) seat_2 with_seat (click_seat event seat_2 with_seat)
click_seat-Clicked_example = click_seat-Clicked event seat_2 with_seat

seat_2-fresh : includes with_seat.picked seat_2.id ≡ false
unfolding includes
seat_2-fresh = refl

with_seat-room : 1 < max_picks event with_seat
unfolding max_picks home current_event find_event
with_seat-room = omega arith

commit_start-click_seat_example :
    asked_seats (hold_start "k1" with_seat).1 ≡ some with_seat.picked
    × (commit_start "k2" (click_seat event seat_2 (after_hold "k1" 200 granted with_seat))).1
      ≡ some (record {
        token = with_seat.token;
        hold_id = "h7";
        idempotency_key = "k2";
        seat_ids = with_seat.picked ++ "s2" ∷ [];
      })
commit_start-click_seat_example =
    commit_start-click_seat event with_seat "k1" 200 granted seat_2 "k2" refl refl refl refl
      seat_2-fresh with_seat-room

countdown_lem_example :
    ((3725000 ≤ 1000) × countdown (some 3725000) 1000 ≡ live)
    ⊎ ((1000 < 3725000)
        × (h : ℕ) × (m : ℕ) × (s : ℕ) × countdown (some 3725000) 1000
            ≡ remaining h m s (label h m s)
        × IsClock (3725000 - 1000) h m s)
countdown_lem_example = countdown_lem 3725000 1000

abbrev ids : List (List ℕ)
ids = (b'a' ∷ b'1' ∷ []) ∷ (b'b' ∷ []) ∷ []

abbrev typed : List ℕ
typed = b'c' ∷ b',' ∷ b',' ∷ []

a1-IsId : IsId (b'a' ∷ b'1' ∷ [])
unfolding is_space
a1-IsId = record { plain = ((omega arith, refl), ((omega arith, refl), tt)); full = refl }

b-IsId : IsId (b'b' ∷ [])
unfolding is_space
b-IsId = record { plain = ((omega arith, refl), tt); full = refl }

seat_list-quick_picks_example : seat_list (quick_picks ids typed) ≡ seat_list typed ++ ids
seat_list-quick_picks_example = seat_list-quick_picks ids typed (a1-IsId, (b-IsId, tt))

forged_request-token : extract_token forged_request ≡ some forged_token
unfolding extract_token
forged_request-token = refl

forged_request-event_id : extract_event_id forged_request ≡ some "concert"
unfolding extract_event_id
forged_request-event_id = refl

kept_token : codes forged_token ≡ (join_queue (crypto forged) browser choosing visit).0.token
unfolding join_queue join_done fall_back keep_token sign_dev_queue_token user_of join_start browser
    home codes seal crypto dev_claims b64url_encode to_url strip_padding length_utf16
kept_token = refl

forged-listed :
    (check_jti_allowlist (crypto forged) platform dev_env forged (platform.date_now start).1).0
    ≡ ok true
unfolding check_jti_allowlist
forged-listed = refl

user_named : user_at browser choosing visit ≢ ""
unfolding browser user_of
user_named = λ e. ground (arith, eq_iff "ana" "", e)

event_named : choosing.selected ≢ ""
unfolding home
event_named = λ e. ground (arith, eq_iff "concert" "", e)

middleware-join_queue_example :
    (middleware (crypto forged) platform dev_env forged_request start).0
    ≡ ok (authenticated (pass_of forged_request forged_token 1700000000 forged))
unfolding platform crypto browser home user_of is_latin
middleware-join_queue_example =
    middleware-join_queue (crypto forged) browser platform dev_env (crypto-laws forged) choosing
      visit forged_request forged_token start refl refl forged_request-token kept_token refl
      (parse-print forged) (omega arith) (omega arith) refl refl user_named event_named
      (inr (inr forged_request-event_id)) forged-listed refl refl refl

-- ===== src/Storefront/Session/Held.antt =====
-- A hold, one more seat, and a commit.
use crowdtic.Base.{
  ℕ, ◌<◌, ◌≡◌, refl, String, true, false, Option, none, some, List, [], ◌∷◌, ◌++◌, length, leb,
  is_empty, is_blank, get_or, arith,
}
use crowdtic.Storefront.State.{Event, Seat, Hold, Home, current_event}
use crowdtic.Storefront.Picks.{includes, max_picks, toggle, toggle_seat, is_taken, click_seat}
use crowdtic.Storefront.Booking.{answered, HoldRequest, hold_start, hold_done, commit_start}

-- The page after a hold of what is picked has been granted, and after one more seat is clicked.
abbrev pub after_hold : String → ℕ → Hold → Home → Home
after_hold key status j h = hold_done (answered true status none none j) (hold_start key h).0

abbrev pub asked_seats : Option HoldRequest → Option (List String)
asked_seats none = none
asked_seats (some q) = some q.seat_ids

module _ (default : Event) (h : Home) (key : String) (status : ℕ) (j : Hold) where
  -- The map stays open after a hold: one more seat that is available can still be picked, and the
  -- commit then names the seats with the new one under the id of a hold that was asked for without.
  pub commit_start-click_seat :
      (seat : Seat) (key' : String)
      → is_empty h.token ≡ false
      → is_empty h.picked ≡ false
      → is_blank (get_or j.hold_id "") ≡ false
      → is_taken seat ≡ false
      → includes h.picked seat.id ≡ false
      → length h.picked < max_picks default h
      → asked_seats (hold_start key h).1 ≡ some h.picked
        × (commit_start key' (click_seat default seat (after_hold key status j h))).1
          ≡ some (record {
            token = h.token;
            hold_id = get_or j.hold_id "";
            idempotency_key = key';
            seat_ids = h.picked ++ seat.id ∷ [];
          })
  unfolding hold_start hold_done commit_start click_seat toggle_seat toggle max_picks current_event
  commit_start-click_seat seat key' full some_picked id buyable fresh room =
      let open_room : leb (max_picks default h) (length h.picked) ≡ false = ground arith in
      rw (full, some_picked, buyable, fresh, open_room, id) (refl, refl)

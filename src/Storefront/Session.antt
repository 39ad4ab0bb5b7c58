-- ===== src/Storefront/Session.antt =====
-- The life of the page: clicks on what is enabled, and the answers to what is under way.
pub mod Life
pub mod Lifecycle
pub mod Distinct
pub mod Held
pub mod Tokenless
use crowdtic.Base.{ℕ, ◌≡◌, String, true, Option, none, some, List}
use crowdtic.Storefront.State.{Event, Seat, Hold, Paid, Home, home, select_event}
use crowdtic.Storefront.Load.{DetailBody, events_loaded, detail_loaded, seats_loaded}
use crowdtic.Token.Base64.{Crypto}
use crowdtic.Storefront.Browser.{Browser, JoinAnswer}
use crowdtic.Storefront.Join.{join_start, join_done, load_token, clear_token}
use crowdtic.Storefront.Picks.{click_seat, clear_picks}
use crowdtic.Storefront.Booking.{
  HoldRequest, CommitRequest, Answer, hold_start, hold_done, commit_start, commit_done, can_hold,
  can_commit,
}

-- What the page waits for.
pub data Wait : Type 0 where
  rest : Wait
  hold_sent : HoldRequest → Wait
  commit_sent : CommitRequest → Wait

pub record Session : Type 0 where
  pub home : Home
  pub wait : Wait

-- A request of `doHold` or `doCommit` is awaited from here on, if there is one.
abbrev pub hold_wait : Wait → Option HoldRequest → Wait
hold_wait old none = old
hold_wait old (some r) = hold_sent r

abbrev pub commit_wait : Wait → Option CommitRequest → Wait
commit_wait old none = old
commit_wait old (some r) = commit_sent r

unfoldable pub press_hold : String → Session → Session
press_hold key s = record {
  home = (hold_start key s.home).0;
  wait = hold_wait s.wait (hold_start key s.home).1;
}

unfoldable pub press_commit : String → Session → Session
press_commit key s = record {
  home = (commit_start key s.home).0;
  wait = commit_wait s.wait (commit_start key s.home).1;
}

module _ {W : Type 0} (c : Crypto) (b : Browser W) (default : Event) where
  pub data Step : Session → Session → Type 0 where
    pressed_hold : (key : String) (s : Session) → can_hold s.home ≡ true → Step s (press_hold key s)
    pressed_commit :
        (key : String) (s : Session) → can_commit s.home ≡ true → Step s (press_commit key s)
    hold_answered :
        (r : HoldRequest) (a : Answer Hold) (h : Home)
        → Step
            (record { home = h; wait = hold_sent r })
            (record { home = hold_done a h; wait = rest })
    commit_answered :
        (r : CommitRequest) (a : Answer Paid) (h : Home)
        → Step
            (record { home = h; wait = commit_sent r })
            (record { home = commit_done a h; wait = rest })
    clicked :
        (seat : Seat) (s : Session) → Step s (record s { home = click_seat default seat s.home })
    cleared : (s : Session) → Step s (record s { home = clear_picks s.home })
    events_read :
        (o : Option (List Event)) (s : Session)
        → Step s (record s { home = events_loaded default o s.home })
    detail_read :
        (event : Event) (o : Option DetailBody) (s : Session)
        → Step s (record s { home = detail_loaded event o s.home })
    seats_read :
        (o : Option (List Seat)) (s : Session) → Step s (record s { home = seats_loaded o s.home })
    chosen : (id : String) (s : Session) → Step s (record s { home = select_event id s.home })
    join_pressed : (s : Session) → Step s (record s { home = join_start s.home })
    join_answered :
        (event_id user_id : String) (a : JoinAnswer) (w : W) (s : Session)
        → Step s (record s { home = (join_done c b event_id user_id a s.home w).0 })
    token_loaded : (w : W) (s : Session) → Step s (record s { home = load_token b s.home w })
    token_cleared : (w : W) (s : Session) → Step s (record s { home = (clear_token b s.home w).0 })

  pub data Steps (start : Session) : Session → Type 0 where
    here : Steps start start
    next : {s t : Session} → Steps start s → Step s t → Steps start t

unfoldable pub opened : Session
unfolding home
opened = record { home = home; wait = rest }

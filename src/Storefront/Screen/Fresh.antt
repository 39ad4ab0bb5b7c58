-- ===== src/Storefront/Screen/Fresh.antt =====
-- A purchase is on display only while nothing is held or awaited.
use crowdtic.Base.{
  ◌≡◌, ◌≢◌, refl, ◌⊎◌, inl, inr, String, true, false, Bool-cases, not, ◌&&◌, Option, none, some,
  List, [], ◌∷◌, is_empty, is_blank, get_or,
}
use crowdtic.Env.{is_set}
use crowdtic.Token.Base64.{Crypto}
use crowdtic.Storefront.State.{Event, Seat, Hold, Paid, Home, home, select_event}
use crowdtic.Storefront.Load.{DetailBody, events_loaded, detail_loaded, seats_loaded}
use crowdtic.Storefront.Browser.{Browser, JoinAnswer, unreachable, refused, joined}
use crowdtic.Storefront.Join.{join_start, join_done, fall_back, keep_token, load_token, clear_token}
use crowdtic.Storefront.Picks.{click_seat, toggle_seat, clear_picks, is_taken}
use crowdtic.Storefront.Booking.{
  HoldRequest, CommitRequest, Answer, broken, answered, can_commit, hold_start, commit_start,
  hold_done, commit_done, hold_id_of,
}
use crowdtic.Storefront.Session.{
  Wait, rest, hold_sent, commit_sent, Session, press_hold, press_commit, Step, pressed_hold,
  pressed_commit, hold_answered, commit_answered, clicked, cleared, events_read, detail_read,
  seats_read, chosen, join_pressed, join_answered, token_loaded, token_cleared, Steps, here, next,
  opened,
}
use crowdtic.Storefront.Session.Life.{IsConsistent, commit-Fits}
use crowdtic.Storefront.Session.Lifecycle.{Steps-IsConsistent}
use crowdtic.Storefront.Screen.{}

-- A purchase is on display only when nothing is held or awaited.
abbrev pub IsFresh : Wait → Home → Type 0
IsFresh w h = (h.commit_res ≡ none) ⊎ ((w ≡ rest) × (h.hold_res ≡ none))

abbrev pub IsFreshAt : Session → Type 0
IsFreshAt s = IsFresh s.wait s.home

press_hold-IsFresh : (key : String) (s : Session) → IsFreshAt s → IsFreshAt (press_hold key s)
unfolding press_hold hold_start
press_hold-IsFresh key s fresh = elim (Bool-cases (is_empty s.home.token)) [
  | inl no_token ↦ rw no_token fresh
  | inr has_token ↦ elim (Bool-cases (is_empty s.home.picked)) [
    | inl none_picked ↦ rw (has_token, none_picked) fresh
    | inr some_picked ↦ rw (has_token, some_picked) (inl refl)
  ]
]

-- A hold is on display, so that no purchase is.
held-IsFresh :
    (w : Wait) (h : Home) (r : Hold) → h.hold_res ≡ some r → IsFresh w h → h.commit_res ≡ none
held-IsFresh w h r e (inl bare) = bare
held-IsFresh w h r e (inr (waiting, f)) = cc

press_commit-IsFresh :
    (key : String) (s : Session)
    → can_commit s.home ≡ true
    → IsConsistent s
    → IsFreshAt s
    → IsFreshAt (press_commit key s)
unfolding press_commit commit_start can_commit
press_commit-IsFresh key s e ok fresh =
    let (r, e_wait, e_hold) = commit-Fits e ok in
    let bare = held-IsFresh s.wait s.home r e_hold fresh in
    elim (Bool-cases (is_blank (hold_id_of s.home.hold_res))) [
      | inl blank ↦ rw blank (inl bare)
      | inr id ↦ rw id (inl bare)
    ]

-- What is awaited is not nothing, so that no purchase is on display.
awaited-IsFresh : (w : Wait) (h : Home) → w ≢ rest → IsFresh w h → h.commit_res ≡ none
awaited-IsFresh w h ne (inl bare) = bare
awaited-IsFresh w h ne (inr (waiting, f)) = absurd (ne waiting)

hold_done-IsFresh :
    (r : HoldRequest) (a : Answer Hold) (h : Home)
    → IsFresh (hold_sent r) h
    → IsFresh rest (hold_done a h)
unfolding hold_done
hold_done-IsFresh r (broken e) h fresh = inl (awaited-IsFresh (hold_sent r) h (λ e. cc) fresh)
hold_done-IsFresh r (answered true status error warning j) h fresh =
    inl (awaited-IsFresh (hold_sent r) h (λ e. cc) fresh)
hold_done-IsFresh r (answered false status error warning j) h fresh =
    inl (awaited-IsFresh (hold_sent r) h (λ e. cc) fresh)

commit_done-IsFresh :
    (r : CommitRequest) (a : Answer Paid) (h : Home)
    → IsFresh (commit_sent r) h
    → IsFresh rest (commit_done a h)
unfolding commit_done
commit_done-IsFresh r (broken e) h fresh = inl (awaited-IsFresh (commit_sent r) h (λ e. cc) fresh)
commit_done-IsFresh r (answered fine status error warning j) h fresh =
    elim (Bool-cases (not fine && not (is_set j.order_id))) [
      | inl failed ↦ rw failed (inl (awaited-IsFresh (commit_sent r) h (λ e. cc) fresh))
      | inr paid ↦ rw paid (inr (refl, refl))
    ]

module _ {W : Type 0} (c : Crypto) (b : Browser W) (default : Event) where
  click-IsFresh :
      (seat : Seat) (s : Session)
      → IsFreshAt s
      → IsFreshAt (record s { home = click_seat default seat s.home })
  unfolding click_seat toggle_seat
  click-IsFresh seat s fresh = elim (Bool-cases (is_taken seat)) [
    | inl taken ↦ rw taken fresh
    | inr buyable ↦ rw buyable fresh
  ]

  events-IsFresh :
      (o : Option (List Event)) (s : Session)
      → IsFreshAt s
      → IsFreshAt (record s { home = events_loaded default o s.home })
  unfolding events_loaded
  events-IsFresh none s fresh = fresh
  events-IsFresh (some []) s fresh = fresh
  events-IsFresh (some (e ∷ es)) s fresh = fresh

  detail-IsFresh :
      (event : Event) (o : Option DetailBody) (s : Session)
      → IsFreshAt s
      → IsFreshAt (record s { home = detail_loaded event o s.home })
  unfolding detail_loaded
  detail-IsFresh event none s fresh = fresh
  detail-IsFresh event (some j) s fresh = fresh

  seats-IsFresh :
      (o : Option (List Seat)) (s : Session)
      → IsFreshAt s
      → IsFreshAt (record s { home = seats_loaded o s.home })
  unfolding seats_loaded
  seats-IsFresh none s fresh = fresh
  seats-IsFresh (some l) s fresh = fresh

  join-IsFresh :
      (event_id user_id : String) (a : JoinAnswer) (w : W) (s : Session)
      → IsFreshAt s
      → IsFreshAt (record s { home = (join_done c b event_id user_id a s.home w).0 })
  unfolding join_done fall_back keep_token
  join-IsFresh event_id user_id unreachable w s fresh = fresh
  join-IsFresh event_id user_id (refused n) w s fresh = fresh
  join-IsFresh event_id user_id (joined j none) w s fresh = fresh
  join-IsFresh event_id user_id (joined j (some t)) w s fresh = elim (Bool-cases (is_empty t)) [
    | inl bare ↦ rw bare fresh
    | inr full ↦ rw full fresh
  ]

  load-IsFresh :
      (w : W) (s : Session) → IsFreshAt s → IsFreshAt (record s { home = load_token b s.home w })
  unfolding load_token
  load-IsFresh w s fresh = elim (Bool-cases (is_empty (get_or (b.stored_token w) []))) [
    | inl bare ↦ rw bare fresh
    | inr full ↦ rw full fresh
  ]

  Step-IsFresh : {s t : Session} → Step c b default s t → IsConsistent s → IsFreshAt s → IsFreshAt t
  unfolding select_event clear_picks join_start clear_token
  Step-IsFresh (pressed_hold key s e) ok fresh = press_hold-IsFresh key s fresh
  Step-IsFresh (pressed_commit key s e) ok fresh = press_commit-IsFresh key s e ok fresh
  Step-IsFresh (hold_answered r a h) ok fresh = hold_done-IsFresh r a h fresh
  Step-IsFresh (commit_answered r a h) ok fresh = commit_done-IsFresh r a h fresh
  Step-IsFresh (clicked seat s) ok fresh = click-IsFresh seat s fresh
  Step-IsFresh (cleared s) ok fresh = fresh
  Step-IsFresh (events_read o s) ok fresh = events-IsFresh o s fresh
  Step-IsFresh (detail_read event o s) ok fresh = detail-IsFresh event o s fresh
  Step-IsFresh (seats_read o s) ok fresh = seats-IsFresh o s fresh
  Step-IsFresh (chosen id s) ok fresh = fresh
  Step-IsFresh (join_pressed s) ok fresh = fresh
  Step-IsFresh (join_answered event_id user_id a w s) ok fresh =
      join-IsFresh event_id user_id a w s fresh
  Step-IsFresh (token_loaded w s) ok fresh = load-IsFresh w s fresh
  Step-IsFresh (token_cleared w s) ok fresh = fresh

  pub Steps-IsFresh : {s : Session} → Steps c b default opened s → IsFreshAt s
  unfolding opened home
  Steps-IsFresh here = inl refl
  Steps-IsFresh (next run step) =
      Step-IsFresh step (Steps-IsConsistent c b default run) (Steps-IsFresh run)

-- ===== src/Storefront/Session/Lifecycle.antt =====
-- One request at a time, and the lifecycle of a booking that the page goes through.
use crowdtic.Base.{
  ◌≡◌, ◌⊎◌, refl, sym, subst, String, Bool-cases, true, false, not, ◌&&◌, Option, none, some, inl,
  inr, List, [], ◌∷◌, get_or, is_empty, is_blank,
}
use crowdtic.Env.{is_set}
use crowdtic.Token.Base64.{Crypto}
use crowdtic.Storefront.State.{Event, Seat, Hold, Paid, Home, home, select_event}
use crowdtic.Storefront.Load.{DetailBody, events_loaded, detail_loaded, seats_loaded}
use crowdtic.Storefront.Browser.{Browser, JoinAnswer, unreachable, refused, joined}
use crowdtic.Storefront.Join.{join_start, join_done, fall_back, keep_token, load_token, clear_token}
use crowdtic.Storefront.Picks.{click_seat, toggle_seat, clear_picks, is_taken}
use crowdtic.Storefront.Booking.{
  HoldRequest, CommitRequest, Answer, broken, answered, can_hold, can_commit, hold_start,
  commit_start, hold_done, commit_done, hold_id_of,
}
use crowdtic.Storefront.Session.{
  rest, hold_sent, commit_sent, Session, press_hold, press_commit, Step, pressed_hold,
  pressed_commit, hold_answered, commit_answered, clicked, cleared, events_read, detail_read,
  seats_read, chosen, join_pressed, join_answered, token_loaded, token_cleared, Steps, here, next,
  opened,
}
use crowdtic.Storefront.Session.Life.{
  at_rest, asks, holds, IsConsistent, Life, paying, Edge, ask, grant, refuse, pay, keep, finish,
  life, IsMove, idle-Fits, commit-Fits, asking-Fits, paying-Fits, Fits-pays, reserved_life,
}

module _ {W : Type 0} (c : Crypto) (b : Browser W) (default : Event) where
  -- What changes neither the phase nor the hold is no move of the booking.
  still :
      (s : Session) (h : Home)
      → h.phase ≡ s.home.phase
      → h.hold_res ≡ s.home.hold_res
      → IsConsistent s
      → IsMove s (record s { home = h })
  still s h e_phase e_hold ok = rw (e_phase, e_hold) (ok, inl refl)

  press_hold-IsMove :
      (key : String) (s : Session)
      → can_hold s.home ≡ true
      → IsConsistent s
      → IsMove s (press_hold key s)
  unfolding press_hold hold_start can_hold
  press_hold-IsMove key s e ok =
      let (e_wait, e_hold) = idle-Fits e ok in
      elim (Bool-cases (is_empty s.home.token)) [
        | inl no_token ↦ rw (no_token) (ok, inl refl)
        | inr has_token ↦ elim (Bool-cases (is_empty s.home.picked)) [
          | inl none_picked ↦ rw (has_token, none_picked) (ok, inl refl)
          | inr some_picked ↦ rw (has_token, some_picked, e_wait, e_hold) (asks _, inr ask)
        ]
      ]

  press_commit-IsMove :
      (key : String) (s : Session)
      → can_commit s.home ≡ true
      → IsConsistent s
      → IsMove s (press_commit key s)
  unfolding press_commit commit_start can_commit
  press_commit-IsMove key s e ok =
      let (r, e_wait, e_hold) = commit-Fits e ok in
      elim (Bool-cases (is_blank (hold_id_of s.home.hold_res))) [
        | inl blank ↦ rw (blank) (ok, inl refl)
        | inr id ↦ rw (id) (
          Fits-pays _ e_hold refl,
          inr (
              subst (λ (x : Life). Edge x (paying (hold_id_of s.home.hold_res)))
                (sym (reserved_life e_wait e_hold)) (pay _ id)),
        )
      ]

  hold_done-IsMove :
      (r : HoldRequest) (a : Answer Hold) (h : Home)
      → IsConsistent (record { home = h; wait = hold_sent r })
      → IsMove
          (record { home = h; wait = hold_sent r })
          (record { home = hold_done a h; wait = rest })
  unfolding hold_done
  hold_done-IsMove r (broken e) h ok = rw (asking-Fits ok) (at_rest, inr refuse)
  hold_done-IsMove r (answered true status error warning j) h ok =
      (holds j, inr (grant (get_or j.hold_id "")))
  hold_done-IsMove r (answered false status error warning j) h ok =
      rw (asking-Fits ok) (at_rest, inr refuse)

  commit_done-IsMove :
      (q : CommitRequest) (a : Answer Paid) (h : Home)
      → IsConsistent (record { home = h; wait = commit_sent q })
      → IsMove
          (record { home = h; wait = commit_sent q })
          (record { home = commit_done a h; wait = rest })
  unfolding commit_done
  commit_done-IsMove q (broken e) h ok =
      let (r, e_hold, e_id) = paying-Fits ok in
      rw (e_hold, e_id) (holds r, inr (keep (get_or r.hold_id "")))
  commit_done-IsMove q (answered fine status error warning j) h ok =
      let (r, e_hold, e_id) = paying-Fits ok in
      elim (Bool-cases (not fine && not (is_set j.order_id))) [
        | inl failed ↦ rw (failed, e_hold, e_id) (holds r, inr (keep (get_or r.hold_id "")))
        | inr paid ↦ rw (paid) (at_rest, inr (finish q.hold_id))
      ]

  click-IsMove :
      (seat : Seat) (s : Session)
      → IsConsistent s
      → IsMove s (record s { home = click_seat default seat s.home })
  unfolding click_seat toggle_seat
  click-IsMove seat s ok = elim (Bool-cases (is_taken seat)) [
    | inl taken ↦ rw (taken) (ok, inl refl)
    | inr buyable ↦ rw (buyable) (ok, inl refl)
  ]

  events-IsMove :
      (o : Option (List Event)) (s : Session)
      → IsConsistent s
      → IsMove s (record s { home = events_loaded default o s.home })
  unfolding events_loaded
  events-IsMove none s ok = (ok, inl refl)
  events-IsMove (some []) s ok = (ok, inl refl)
  events-IsMove (some (e ∷ es)) s ok = (ok, inl refl)

  detail-IsMove :
      (event : Event) (o : Option DetailBody) (s : Session)
      → IsConsistent s
      → IsMove s (record s { home = detail_loaded event o s.home })
  unfolding detail_loaded
  detail-IsMove event none s ok = (ok, inl refl)
  detail-IsMove event (some j) s ok = (ok, inl refl)

  seats-IsMove :
      (o : Option (List Seat)) (s : Session)
      → IsConsistent s
      → IsMove s (record s { home = seats_loaded o s.home })
  unfolding seats_loaded
  seats-IsMove none s ok = (ok, inl refl)
  seats-IsMove (some l) s ok = (ok, inl refl)

  join-IsMove :
      (event_id user_id : String) (a : JoinAnswer) (w : W) (s : Session)
      → IsConsistent s
      → IsMove s (record s { home = (join_done c b event_id user_id a s.home w).0 })
  unfolding join_done fall_back keep_token
  join-IsMove event_id user_id unreachable w s ok = (ok, inl refl)
  join-IsMove event_id user_id (refused n) w s ok = (ok, inl refl)
  join-IsMove event_id user_id (joined j none) w s ok = (ok, inl refl)
  join-IsMove event_id user_id (joined j (some t)) w s ok = elim (Bool-cases (is_empty t)) [
    | inl bare ↦ rw (bare) (ok, inl refl)
    | inr full ↦ rw (full) (ok, inl refl)
  ]

  load-IsMove :
      (w : W) (s : Session) → IsConsistent s → IsMove s (record s { home = load_token b s.home w })
  unfolding load_token
  load-IsMove w s ok = elim (Bool-cases (is_empty (get_or (b.stored_token w) []))) [
    | inl bare ↦ rw (bare) (ok, inl refl)
    | inr full ↦ rw (full) (ok, inl refl)
  ]

  -- Every step of the page keeps the session consistent, and is a move of the booking.
  Step-IsMove : {s t : Session} → Step c b default s t → IsConsistent s → IsMove s t
  unfolding select_event clear_picks join_start clear_token
  Step-IsMove (pressed_hold key s e) ok = press_hold-IsMove key s e ok
  Step-IsMove (pressed_commit key s e) ok = press_commit-IsMove key s e ok
  Step-IsMove (hold_answered r a h) ok = hold_done-IsMove r a h ok
  Step-IsMove (commit_answered r a h) ok = commit_done-IsMove r a h ok
  Step-IsMove (clicked seat s) ok = click-IsMove seat s ok
  Step-IsMove (cleared s) ok = (ok, inl refl)
  Step-IsMove (events_read o s) ok = events-IsMove o s ok
  Step-IsMove (detail_read event o s) ok = detail-IsMove event o s ok
  Step-IsMove (seats_read o s) ok = seats-IsMove o s ok
  Step-IsMove (chosen id s) ok = (ok, inl refl)
  Step-IsMove (join_pressed s) ok = (ok, inl refl)
  Step-IsMove (join_answered event_id user_id a w s) ok = join-IsMove event_id user_id a w s ok
  Step-IsMove (token_loaded w s) ok = load-IsMove w s ok
  Step-IsMove (token_cleared w s) ok = (ok, inl refl)

  -- In every session the page can get to, at most one request is awaited, and what is awaited, the
  -- phase and the hold on display fit together; a commit in flight names the hold on display.
  pub Steps-IsConsistent : {s : Session} → Steps c b default opened s → IsConsistent s
  unfolding opened home
  Steps-IsConsistent here = at_rest
  Steps-IsConsistent (next run step) = (Step-IsMove step (Steps-IsConsistent run)).0

  -- From every session that the page can get to, each step of the page leaves the booking as it is
  -- or is one edge of its lifecycle: a hold is asked for where there is none, and granted or
  -- refused; a hold is paid under its own id, which is not empty, and kept or finished under it.
  pub Steps-IsMove :
      {s t : Session}
      → Steps c b default opened s
      → Step c b default s t
      → (life t ≡ life s) ⊎ Edge (life s) (life t)
  Steps-IsMove run step = (Step-IsMove step (Steps-IsConsistent run)).1

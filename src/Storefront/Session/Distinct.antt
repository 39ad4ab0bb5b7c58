-- ===== src/Storefront/Session/Distinct.antt =====
-- The seats picked, over the life of the page.
use crowdtic.Base.{
  get_or, ◌≡◌, refl, String, true, false, Bool-cases, Option, none, some, inl, inr, List, [], ◌∷◌,
  is_empty, is_blank, not, ◌&&◌, arith,
}
use crowdtic.Env.{is_set}
use crowdtic.Token.Base64.{Crypto}
use crowdtic.Storefront.State.{Event, Seat, Hold, Paid, Home, home, select_event}
use crowdtic.Storefront.Load.{DetailBody, events_loaded, detail_loaded, seats_loaded}
use crowdtic.Storefront.Browser.{Browser, JoinAnswer, unreachable, refused, joined}
use crowdtic.Storefront.Join.{join_start, join_done, fall_back, keep_token, load_token, clear_token}
use crowdtic.Storefront.Picks.{clear_picks}
use crowdtic.Storefront.Picks.Limit.{AreDistinct, copies, click_seat-AreDistinct}
use crowdtic.Storefront.Booking.{
  Answer, broken, answered, hold_start, hold_done, commit_start, commit_done, hold_id_of,
}
use crowdtic.Storefront.Session.{
  Session, Step, pressed_hold, pressed_commit, hold_answered, commit_answered, clicked, cleared,
  events_read, detail_read, seats_read, chosen, join_pressed, join_answered, token_loaded,
  token_cleared, Steps, here, next, opened, press_hold, press_commit,
}

hold_start-picked : (key : String) (h : Home) → (hold_start key h).0.picked ≡ h.picked
unfolding hold_start
hold_start-picked key h = elim (Bool-cases (is_empty h.token)) [
  | inl bare ↦ rw bare refl
  | inr full ↦ elim (Bool-cases (is_empty h.picked)) [
    | inl nobody ↦ rw (full, nobody) refl
    | inr somebody ↦ rw (full, somebody) refl
  ]
]

hold_done-picked : (a : Answer Hold) (h : Home) → (hold_done a h).picked ≡ h.picked
unfolding hold_done
hold_done-picked (broken e) h = refl
hold_done-picked (answered true status error warning j) h = refl
hold_done-picked (answered false status error warning j) h = refl

commit_start-picked : (key : String) (h : Home) → (commit_start key h).0.picked ≡ h.picked
unfolding commit_start
commit_start-picked key h = elim (Bool-cases (is_blank (hold_id_of h.hold_res))) [
  | inl blank ↦ rw blank refl
  | inr id ↦ rw id refl
]

no_picks-AreDistinct : AreDistinct []
unfolding copies
no_picks-AreDistinct x = omega arith

-- A commit that goes through drops the picks, another keeps them.
commit_done-AreDistinct :
    (a : Answer Paid) (h : Home) → AreDistinct h.picked → AreDistinct (commit_done a h).picked
unfolding commit_done
commit_done-AreDistinct (broken e) h ok = ok
commit_done-AreDistinct (answered fine status error warning j) h ok =
    elim (Bool-cases (not fine && not (is_set j.order_id))) [
      | inl failed ↦ rw failed ok
      | inr paid ↦ rw paid no_picks-AreDistinct
    ]

events_loaded-picked :
    (default : Event) (o : Option (List Event)) (h : Home)
    → (events_loaded default o h).picked ≡ h.picked
unfolding events_loaded
events_loaded-picked default none h = refl
events_loaded-picked default (some []) h = refl
events_loaded-picked default (some (e ∷ es)) h = refl

detail_loaded-picked :
    (default : Event) (o : Option DetailBody) (h : Home)
    → (detail_loaded default o h).picked ≡ h.picked
unfolding detail_loaded
detail_loaded-picked default none h = refl
detail_loaded-picked default (some j) h = refl

seats_loaded-picked : (o : Option (List Seat)) (h : Home) → (seats_loaded o h).picked ≡ h.picked
unfolding seats_loaded
seats_loaded-picked none h = refl
seats_loaded-picked (some seats) h = refl

module _ {W : Type 0} (c : Crypto) (b : Browser W) (default : Event) where
  join_done-picked :
      (event_id user_id : String) (a : JoinAnswer) (h : Home) (w : W)
      → (join_done c b event_id user_id a h w).0.picked ≡ h.picked
  unfolding join_done fall_back keep_token
  join_done-picked event_id user_id unreachable h w = refl
  join_done-picked event_id user_id (refused n) h w = refl
  join_done-picked event_id user_id (joined j none) h w = refl
  join_done-picked event_id user_id (joined j (some t)) h w = elim (Bool-cases (is_empty t)) [
    | inl bare ↦ rw bare refl
    | inr full ↦ rw full refl
  ]

  load_token-picked : (h : Home) (w : W) → (load_token b h w).picked ≡ h.picked
  unfolding load_token
  load_token-picked h w = elim (Bool-cases (is_empty (get_or (b.stored_token w) []))) [
    | inl bare ↦ rw bare refl
    | inr full ↦ rw full refl
  ]

  Step-AreDistinct :
      {s t : Session} → Step c b default s t → AreDistinct s.home.picked → AreDistinct t.home.picked
  unfolding press_hold press_commit select_event clear_picks join_start clear_token
  Step-AreDistinct (pressed_hold key s e) ok = rw (hold_start-picked key s.home) ok
  Step-AreDistinct (pressed_commit key s e) ok = rw (commit_start-picked key s.home) ok
  Step-AreDistinct (hold_answered r a h) ok = rw (hold_done-picked a h) ok
  Step-AreDistinct (commit_answered r a h) ok = commit_done-AreDistinct a h ok
  Step-AreDistinct (clicked seat s) ok = click_seat-AreDistinct default seat s.home ok
  Step-AreDistinct (cleared s) ok = no_picks-AreDistinct
  Step-AreDistinct (events_read o s) ok = rw (events_loaded-picked default o s.home) ok
  Step-AreDistinct (detail_read event o s) ok = rw (detail_loaded-picked event o s.home) ok
  Step-AreDistinct (seats_read o s) ok = rw (seats_loaded-picked o s.home) ok
  Step-AreDistinct (chosen id s) ok = ok
  Step-AreDistinct (join_pressed s) ok = ok
  Step-AreDistinct (join_answered event_id user_id a w s) ok =
      rw (join_done-picked event_id user_id a s.home w) ok
  Step-AreDistinct (token_loaded w s) ok = rw (load_token-picked s.home w) ok
  Step-AreDistinct (token_cleared w s) ok = ok

  -- No seat is picked twice in any session that the page can get to.
  pub Steps-AreDistinct : {s : Session} → Steps c b default opened s → AreDistinct s.home.picked
  unfolding opened home
  Steps-AreDistinct here = no_picks-AreDistinct
  Steps-AreDistinct (next run step) = Step-AreDistinct step (Steps-AreDistinct run)

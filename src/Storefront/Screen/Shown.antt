-- ===== src/Storefront/Screen/Shown.antt =====
-- What is shown fits what is awaited.
use crowdtic.Base.{
  ℕ, ◌≡◌, ◌≢◌, refl, ap, ◌⊎◌, inl, inr, ◌↔◌, String, true, not, ◌&&◌, Option, none, some,
  if◌then◌else◌,
}
use crowdtic.Token.Base64.{Crypto}
use crowdtic.Storefront.State.{Event, Hold, Home, Phase}
use crowdtic.Storefront.Browser.{Browser}
use crowdtic.Storefront.Booking.{
  HoldRequest, CommitRequest, can_hold, can_commit, is_idle, is_committing, has_hold,
}
use crowdtic.Storefront.Session.{Wait, rest, hold_sent, commit_sent, Session, Steps, opened}
use crowdtic.Storefront.Session.Life.{at_rest, asks, holds, pays, Fits, IsConsistent}
use crowdtic.Storefront.Session.Lifecycle.{Steps-IsConsistent}
use crowdtic.Storefront.Screen.{
  holding_now, caption_of, held_caption, hold_caption, committing_now, pay, commit_caption,
  hold_panel, paid_panel, paid_status,
}
use crowdtic.Storefront.Screen.Fresh.{IsFresh, IsFreshAt, Steps-IsFresh}

held_caption-waiting : (o : Option String) (n : ℕ) → held_caption o n ≢ some holding_now
held_caption-waiting none n = λ e. cc
held_caption-waiting (some id) n = λ e. cc

Fits-holding :
    {w : Wait} {p : Phase} {o : Option Hold}
    → Fits w p o
    → (caption_of p o ≡ some holding_now) ↔ ((q : HoldRequest) × (w ≡ hold_sent q))
Fits-holding at_rest = (λ e. cc, λ (q, e). cc)
Fits-holding (asks q) = (λ e. (q, refl), λ x. refl)
Fits-holding (holds r) = (λ e. absurd (held_caption-waiting r.hold_id r.ttl_sec e), λ (q, e). cc)
Fits-holding (pays q r e_id) =
    (λ e. absurd (held_caption-waiting r.hold_id r.ttl_sec e), λ (q, e). cc)

Fits-committing :
    {w : Wait} {p : Phase} {o : Option Hold}
    → Fits w p o
    → ((if is_committing p then committing_now else pay) ≡ committing_now)
      ↔ ((q : CommitRequest) × (w ≡ commit_sent q))
Fits-committing at_rest = (λ e. cc, λ (q, e). cc)
Fits-committing (asks q) = (λ e. cc, λ (q, e). cc)
Fits-committing (holds r) = (λ e. cc, λ (q, e). cc)
Fits-committing (pays q r e_id) = (λ e. (q, refl), λ x. refl)

Fits-hold :
    {w : Wait} {p : Phase} {o : Option Hold}
    → Fits w p o
    → (is_idle p ≡ true) ↔ ((w ≡ rest) × (o ≡ none))
Fits-hold at_rest = (λ e. (refl, refl), λ x. refl)
Fits-hold (asks q) = (λ e. cc, λ (e_wait, e). cc)
Fits-hold (holds r) = (λ e. cc, λ (e_wait, e). cc)
Fits-hold (pays q r e_id) = (λ e. cc, λ (e_wait, e). cc)

Fits-commit :
    {w : Wait} {p : Phase} {o : Option Hold}
    → Fits w p o
    → (has_hold o && not (is_committing p) ≡ true) ↔ ((w ≡ rest) × ((r : Hold) × (o ≡ some r)))
Fits-commit at_rest = (λ e. cc, λ (e_wait, (r, e)). cc)
Fits-commit (asks q) = (λ e. cc, λ (e_wait, (r, e)). cc)
Fits-commit (holds r) = (λ e. (refl, (r, refl)), λ x. refl)
Fits-commit (pays q r e_id) = (λ e. cc, λ (e_wait, (r, e)). cc)

fresh-panel :
    (w : Wait) (h : Home) → IsFresh w h → (h.hold_res ≡ none) ⊎ (paid_status h.commit_res ≡ none)
fresh-panel w h (inl bare) = inr (ap paid_status bare)
fresh-panel w h (inr (waiting, f)) = inl f

-- What the page shows of a hold and of a purchase fits what is awaited.
pub record IsShown (s : Session) : Type 0 where
  pub holding_shown :
      (hold_caption s.home ≡ some holding_now) ↔ ((q : HoldRequest) × (s.wait ≡ hold_sent q))
  pub committing_shown :
      (commit_caption s.home ≡ committing_now) ↔ ((q : CommitRequest) × (s.wait ≡ commit_sent q))
  pub one_panel : (hold_panel s.home ≡ none) ⊎ (paid_panel s.home ≡ none)
  pub hold_works : (can_hold s.home ≡ true) ↔ ((s.wait ≡ rest) × (hold_panel s.home ≡ none))
  pub commit_works :
      (can_commit s.home ≡ true) ↔ ((s.wait ≡ rest) × ((r : Hold) × (hold_panel s.home ≡ some r)))

Fits-IsShown : (s : Session) → IsConsistent s → IsFreshAt s → IsShown s
unfolding hold_caption commit_caption hold_panel paid_panel can_hold can_commit
Fits-IsShown s ok fresh = record {
  holding_shown = Fits-holding ok;
  committing_shown = Fits-committing ok;
  one_panel = fresh-panel s.wait s.home fresh;
  hold_works = Fits-hold ok;
  commit_works = Fits-commit ok;
}

module _ {W : Type 0} (c : Crypto) (b : Browser W) (default : Event) where
  -- In every session that the page can get to, the page shows that a hold is under way exactly while
  -- one is awaited, and the same of a commit; the panels of a hold and of a purchase are never shown
  -- together; the button of a hold works exactly if nothing is awaited and no hold is shown, and that
  -- of a commit exactly if nothing is awaited and a hold is shown.
  pub Steps-IsShown : {s : Session} → Steps c b default opened s → IsShown s
  Steps-IsShown {s} run =
      Fits-IsShown s (Steps-IsConsistent c b default run) (Steps-IsFresh c b default run)

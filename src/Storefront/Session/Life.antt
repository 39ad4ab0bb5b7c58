-- ===== src/Storefront/Session/Life.antt =====
-- The lifecycle of a booking, and what of the page's state goes with it.
use crowdtic.Base.{
  ◌≡◌, refl, ap, ◌∙◌, String, true, false, not, ◌&&◌, Option, none, some, ◌⊎◌, get_or, is_blank,
}
use crowdtic.Storefront.State.{Hold, Phase, idle, holding, held, committing}
use crowdtic.Storefront.Booking.{
  HoldRequest, CommitRequest, is_idle, is_committing, has_hold, hold_id_of,
}
use crowdtic.Storefront.Session.{Wait, rest, hold_sent, commit_sent, Session}

-- What is awaited, the phase and the hold on display fit together.
pub data Fits : Wait → Phase → Option Hold → Type 0 where
  at_rest : Fits rest idle none
  asks : (q : HoldRequest) → Fits (hold_sent q) holding none
  holds : (r : Hold) → Fits rest held (some r)
  pays :
      (q : CommitRequest) (r : Hold)
      → q.hold_id ≡ get_or r.hold_id ""
      → Fits (commit_sent q) committing (some r)

abbrev pub IsConsistent : Session → Type 0
IsConsistent s = Fits s.wait s.home.phase s.home.hold_res

-- A booking, seen from outside: nothing, a hold asked for, a hold, a hold being paid.
pub data Life : Type 0 where
  free asking : Life
  reserved paying : String → Life

pub data Edge : Life → Life → Type 0 where
  ask : Edge free asking
  grant : (id : String) → Edge asking (reserved id)
  refuse : Edge asking free
  pay : (id : String) → is_blank id ≡ false → Edge (reserved id) (paying id)
  keep : (id : String) → Edge (paying id) (reserved id)
  finish : (id : String) → Edge (paying id) free

-- The request in flight tells which hold is being paid, the hold on display which is reserved.
abbrev pub life_of : Wait → Option Hold → Life
life_of rest none = free
life_of rest (some r) = reserved (get_or r.hold_id "")
life_of (hold_sent q) o = asking
life_of (commit_sent q) o = paying q.hold_id

abbrev pub life : Session → Life
life s = life_of s.wait s.home.hold_res

-- Nothing happens to the booking, or one edge is followed.
abbrev pub IsMove : Session → Session → Type 0
IsMove s t = IsConsistent t × (life t ≡ life s ⊎ Edge (life s) (life t))

-- A page at rest with the phase `idle` shows no hold.
pub idle-Fits :
    {w : Wait} {p : Phase} {o : Option Hold} → is_idle p ≡ true → Fits w p o → w ≡ rest × o ≡ none
idle-Fits e at_rest = (refl, refl)
idle-Fits e (asks q) = cc
idle-Fits e (holds r) = cc
idle-Fits e (pays q r e_id) = cc

-- The button of `doCommit` works where a hold is shown that is not being paid.
pub commit-Fits :
    {w : Wait} {p : Phase} {o : Option Hold}
    → has_hold o && not (is_committing p) ≡ true
    → Fits w p o
    → (r : Hold) × w ≡ rest × o ≡ some r
commit-Fits e at_rest = cc
commit-Fits e (asks q) = cc
commit-Fits e (holds r) = (r, refl, refl)
commit-Fits e (pays q r e_id) = cc

-- While a hold is asked for none is shown; while one is paid it is shown, with the id in flight.
pub asking-Fits :
    {q : HoldRequest} {p : Phase} {o : Option Hold} → Fits (hold_sent q) p o → o ≡ none
asking-Fits (asks q) = refl

pub paying-Fits :
    {q : CommitRequest} {p : Phase} {o : Option Hold}
    → Fits (commit_sent q) p o
    → (r : Hold) × o ≡ some r × q.hold_id ≡ get_or r.hold_id ""
paying-Fits (pays q r e) = (r, refl, e)

pub Fits-pays :
    {q : CommitRequest} {o : Option Hold} (r : Hold)
    → o ≡ some r
    → q.hold_id ≡ hold_id_of o
    → Fits (commit_sent q) committing o
Fits-pays {q} r e_hold e_id = rw e_hold (pays q r (e_id ∙ ap hold_id_of e_hold))

pub reserved_life :
    {w : Wait} {o : Option Hold} {r : Hold}
    → w ≡ rest
    → o ≡ some r
    → life_of w o ≡ reserved (hold_id_of o)
reserved_life e_wait e_hold = rw (e_wait, e_hold) refl

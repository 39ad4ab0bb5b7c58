-- ===== src/Stock/Buyers.antt =====
-- A commit that sells has checked that each of its seats is held, or sold already, for its own
-- hold and user.
use crowdtic.Base.{
  ℕ, suc, ◌≡◌, refl, ◌⊎◌, inl, inr, String, Bool, true, false, not, ◌&&◌, Bool-cases, some, List,
  [], ◌∷◌, All, if◌then◌else◌,
}
use crowdtic.Stock.Calls.{Calls, seat, status, held_by, hold_id}
use crowdtic.Stock.Hold.{is}
use crowdtic.Stock.Commit.{CommitReply, Checked, fine, failed, Buyer, check_seats}
use crowdtic.Stock.Granted.{is-some}

if-fine :
    (c : Bool) (x : Checked) (e : CommitReply) {m : ℕ}
    → (if c then x else failed e) ≡ fine m
    → (c ≡ true) × (x ≡ fine m)
if-fine true x e h = (refl, h)
if-fine false x e h = cc

if_not-fine :
    (c : Bool) (x : Checked) (e : CommitReply) {m : ℕ}
    → (if not c then failed e else x) ≡ fine m
    → (c ≡ true) × (x ≡ fine m)
if_not-fine true x e h = (refl, h)
if_not-fine false x e h = cc

and-true : (a b : Bool) → (a && b) ≡ true → (a ≡ true) × (b ≡ true)
and-true true true h = (refl, refl)
and-true true false h = cc
and-true false b h = cc

module _ {W : Type 0} (r : Calls W) where
  -- The seat is the buyer's: held, or sold.
  pub record IsOf (hold user : String) (w : W) (s : String) : Type 0 where
    pub live : (r.hget (seat s) status w ≡ some "HELD") ⊎ (r.hget (seat s) status w ≡ some "SOLD")
    pub by_hold : r.hget (seat s) hold_id w ≡ some hold
    pub by_user : r.hget (seat s) held_by w ≡ some user

  fine≢failed : {n : ℕ} {e : CommitReply} → failed e ≡ fine n → ⊥
  fine≢failed h = cc

  pub check_seats-IsOf :
      (b : Buyer) (known : Bool) (ss : List String) (n m : ℕ) (w : W)
      → check_seats r b known ss n w ≡ fine m
      → All (IsOf b.hold b.user w) ss
  unfolding check_seats
  check_seats-IsOf b known [] n m w h = tt
  check_seats-IsOf b known (s ∷ ss) n m w h =
      elim (Bool-cases (is (r.hget (seat s) status w) "SOLD")) [
        | inl sold ↦
            let (both, later) = if-fine _ _ _ (rw sold at h) in
            let (hid, hb) = and-true _ _ both in
            (
              record {
                live = inr (is-some _ _ sold);
                by_hold = is-some _ _ hid;
                by_user = is-some _ _ hb;
              },
              check_seats-IsOf b known ss (suc n) m w later,
            )
        | inr unsold ↦ elim (Bool-cases (is (r.hget (seat s) status w) "HELD")) [
          | inl held ↦
              let (hid, more) = if_not-fine _ _ _ (rw (unsold, held) at h) in
              let (hb, later) = if_not-fine _ _ _ more in
              (
                record {
                  live = inl (is-some _ _ held);
                  by_hold = is-some _ _ hid;
                  by_user = is-some _ _ hb;
                },
                check_seats-IsOf b known ss n m w later,
              )
          | inr other ↦ absurd (fine≢failed (rw (unsold, other) at h))
        ]
      ]

-- ===== src/Storefront/Picks/Limit.antt =====
-- What a click on a seat does to the seats picked, counted.
use crowdtic.Base.{
  ℕ, suc, ◌+◌, ◌≤◌, ◌<◌, ◌≡◌, ◌≢◌, refl, String, str_eq, eq_iff, true, false, Bool-cases, inl, inr,
  List, [], ◌∷◌, ◌++◌, length, arith, if◌then◌else◌, leb,
}
use crowdtic.Storefront.State.{Event, Seat, Home}
use crowdtic.Storefront.Picks.{
  includes, leave_out, max_picks, toggle, toggle_seat, is_taken, click_seat,
}

-- How often a seat is picked.
unfoldable pub copies : String → List String → ℕ
copies x [] = 0
copies x (y ∷ ys) = let rest = copies x ys in if str_eq y x then suc rest else rest

-- The seats are picked as often, but for one of them.
abbrev pub AreKept : String → List String → List String → Type 0
AreKept id prev next = (x : String) → x ≢ id → copies x next ≡ copies x prev

-- What becomes of the picks when a seat is toggled.
pub data Toggled (most : ℕ) (id : String) (prev : List String) : List String → Type 0 where
  dropped :
      (next : List String)
      → 1 ≤ copies id prev
      → copies id next ≡ 0
      → AreKept id prev next
      → Toggled most id prev next
  added : copies id prev ≡ 0 → length prev < most → Toggled most id prev (prev ++ id ∷ [])
  refused : copies id prev ≡ 0 → most ≤ length prev → Toggled most id prev prev

-- What becomes of the page when the button of a seat is clicked.
pub data Clicked (most : ℕ) (s : Seat) (h : Home) : Home → Type 0 where
  ignored : is_taken s ≡ true → Clicked most s h h
  toggled :
      (next : List String)
      → is_taken s ≡ false
      → Toggled most s.id h.picked next
      → Clicked most s h (record h { picked = next })

copies-append : (x : String) (xs ys : List String) → copies x (xs ++ ys) ≡ copies x xs + copies x ys
unfolding copies
copies-append x [] ys = omega arith
copies-append x (y ∷ xs) ys = ground (arith, copies-append x xs ys)

copies-leave_out_same : (id : String) (xs : List String) → copies id (leave_out id xs) ≡ 0
unfolding copies leave_out
copies-leave_out_same id [] = refl
copies-leave_out_same id (y ∷ ys) = ground (arith, copies-leave_out_same id ys)

copies-leave_out_other :
    (x id : String) (xs : List String) → x ≢ id → copies x (leave_out id xs) ≡ copies x xs
unfolding copies leave_out
copies-leave_out_other x id [] h = refl
copies-leave_out_other x id (y ∷ ys) h =
    ground (arith, copies-leave_out_other x id ys h, eq_iff y x, eq_iff y id)

includes-copies : (id : String) (xs : List String) → includes xs id ≡ true → 1 ≤ copies id xs
unfolding copies includes
includes-copies id [] h = cc
includes-copies id (y ∷ ys) h = ground (arith, includes-copies id ys)

not_includes-copies : (id : String) (xs : List String) → includes xs id ≡ false → copies id xs ≡ 0
unfolding copies includes
not_includes-copies id [] h = refl
not_includes-copies id (y ∷ ys) h = ground (arith, not_includes-copies id ys)

pub toggle-Toggled :
    (most : ℕ) (id : String) (prev : List String) → Toggled most id prev (toggle most id prev)
unfolding toggle
toggle-Toggled most id prev = elim (Bool-cases (includes prev id)) [
  | inl inside ↦ rw inside (
      dropped _ (includes-copies id prev inside) (copies-leave_out_same id prev)
        (λ x h. copies-leave_out_other x id prev h))
  | inr outside ↦ elim (Bool-cases (leb most (length prev))) [
    | inl full ↦ rw (outside, full) (refused (not_includes-copies id prev outside) (ground arith))
    | inr room ↦ rw (outside, room) (added (not_includes-copies id prev outside) (ground arith))
  ]
]

-- A click on a seat that is not available changes nothing. On one that is, it changes the picks
-- alone: a picked seat is dropped and the others are kept, another seat is added at the end if
-- there are fewer than the maximum, and if there are not nothing happens.
pub click_seat-Clicked :
    (default : Event) (s : Seat) (h : Home)
    → Clicked (max_picks default h) s h (click_seat default s h)
unfolding click_seat toggle_seat
click_seat-Clicked default s h = elim (Bool-cases (is_taken s)) [
  | inl taken ↦ rw taken (ignored taken)
  | inr buyable ↦
      rw buyable (toggled _ buyable (toggle-Toggled (max_picks default h) s.id h.picked))
]

-- No seat is picked twice.
abbrev pub AreDistinct : List String → Type 0
AreDistinct xs = (x : String) → copies x xs ≤ 1

copies_end :
    (x id : String) (xs : List String)
    → AreDistinct xs
    → copies id xs ≡ 0
    → copies x (xs ++ id ∷ []) ≤ 1
unfolding copies
copies_end x id xs h none = ground (arith, copies-append x xs (id ∷ []), h x, eq_iff id x)

Toggled-AreDistinct :
    {most : ℕ} {id : String} {prev next : List String}
    → Toggled most id prev next
    → AreDistinct prev
    → AreDistinct next
Toggled-AreDistinct {id} (dropped next inside gone kept) h x = elim (Bool-cases (str_eq x id)) [
  | inl same ↦ rw ((eq_iff x id).0 same) (omega (arith, gone))
  | inr other ↦ omega (arith, h x, kept x (λ e. cc (other, (eq_iff x id).1 e)))
]
Toggled-AreDistinct {id} {prev} (added none room) h x = copies_end x id prev h none
Toggled-AreDistinct (refused none full) h x = h x

pub click_seat-AreDistinct :
    (default : Event) (s : Seat) (h : Home)
    → AreDistinct h.picked
    → AreDistinct (click_seat default s h).picked
unfolding click_seat toggle_seat
click_seat-AreDistinct default s h distinct = elim (Bool-cases (is_taken s)) [
  | inl taken ↦ rw taken distinct
  | inr buyable ↦
      rw buyable (Toggled-AreDistinct (toggle-Toggled (max_picks default h) s.id h.picked) distinct)
]

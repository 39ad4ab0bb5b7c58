-- ===== src/Storefront/Countdown/Exact.antt =====
-- The countdown against the time that it stands for.
use crowdtic.Base.{
  ℕ, zero, suc, ◌+◌, ◌-◌, ◌*◌, ◌/◌, ◌%◌, ◌≤◌, ◌<◌, ◌≡◌, ◌⊎◌, inl, inr, refl, Bool-cases, leb, ltb,
  some, List, [], ◌∷◌, ◌++◌, arith,
}
use crowdtic.Storefront.Countdown.{live, remaining, countdown, label, decimal, digits_of, pad_two}

-- A number below 100 as its two digits.
abbrev pub two_digits : ℕ → List ℕ
two_digits n = (n / 10 + b'0') ∷ (n % 10 + b'0') ∷ []

-- What the page tells `left` milliseconds before the sale.
pub record IsClock (left h m s : ℕ) : Type 0 where
  pub whole_seconds : h * 3600 + m * 60 + s ≡ left / 1000
  pub minutes : m < 60
  pub seconds : s < 60

split_time : (d : ℕ) → IsClock d (d / 3600000) (d / 60000 % 60) (d / 1000 % 60)
split_time d = record { whole_seconds = omega arith; minutes = omega arith; seconds = omega arith }

-- The page says that the sale is live exactly from its time on; before it, it shows hours, minutes
-- below 60 and seconds below 60 that make up the whole seconds that are left.
pub countdown_lem :
    (to now : ℕ)
    → ((to ≤ now) × countdown (some to) now ≡ live)
      ⊎ ((now < to)
          × (h : ℕ) × (m : ℕ) × (s : ℕ) × countdown (some to) now ≡ remaining h m s (label h m s)
          × IsClock (to - now) h m s)
unfolding countdown
countdown_lem to now = elim (Bool-cases (leb to now)) [
  | inl over ↦ inl (ground arith, rw over refl)
  | inr before ↦ inr (ground arith, _, _, _, rw before refl, split_time (to - now))
]

digits_of_one : (fuel n : ℕ) → n < 10 → digits_of (suc fuel) n ≡ (n + b'0') ∷ []
unfolding digits_of
digits_of_one fuel n h = ground arith

digits_of_two : (fuel n : ℕ) → 10 ≤ n → n < 100 → digits_of (suc (suc fuel)) n ≡ two_digits n
unfolding digits_of
digits_of_two fuel n big small = elim (Bool-cases (ltb n 10)) [
  | inl e ↦ ground arith
  | inr e ↦ rw (e, digits_of_one fuel (n / 10) (omega arith)) refl
]

pad_two-decimal : (n : ℕ) → n < 100 → pad_two (decimal n) ≡ two_digits n
unfolding decimal
pad_two-decimal zero h = refl
pad_two-decimal (suc n) h = elim (Bool-cases (ltb (suc n) 10)) [
  | inl one ↦
      let tens : suc n / 10 ≡ 0 = ground arith in
      let units : suc n % 10 ≡ suc n = ground arith in
      rw (digits_of_one (suc n) (suc n) (ground arith), tens, units) refl
  | inr two ↦ rw (digits_of_two n (suc n) (ground arith) h) refl
]

-- With less than 100 hours left, the label is that of a clock: two digits for each number.
pub label_lem :
    (h m s : ℕ)
    → h < 100
    → m < 60
    → s < 60
    → label h m s ≡ two_digits h ++ b':' ∷ (two_digits m ++ b':' ∷ two_digits s)
unfolding label
label_lem h m s hours minutes seconds =
    rw (pad_two-decimal h hours, pad_two-decimal m (omega arith), pad_two-decimal s (omega arith))
      refl

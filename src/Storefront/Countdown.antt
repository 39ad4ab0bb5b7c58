-- ===== src/Storefront/Countdown.antt =====
-- `countdown`: how long until the sale.
pub mod Exact
use crowdtic.Base.{
  ℕ, zero, suc, ◌+◌, ◌-◌, ◌/◌, ◌%◌, Bool, Option, none, some, List, [], ◌∷◌, ◌++◌, length, ltb, leb,
  if◌then◌else◌,
}

-- The five fields of the answer; `unknown` is that of a date that cannot be read, where they are NaN.
pub data Countdown : Type 0 where
  live : Countdown
  remaining : ℕ → ℕ → ℕ → List ℕ → Countdown
  unknown : Countdown

digits_of : ℕ → ℕ → List ℕ
digits_of zero n = []
digits_of (suc fuel) n =
    let more = digits_of fuel (n / 10) ++ (n % 10 + b'0') ∷ [] in
    if ltb n 10 then (n + b'0') ∷ [] else more

-- `String(n)`; a number has no more digits than its successor has units.
unfoldable pub decimal : ℕ → List ℕ
unfolding digits_of
decimal n = digits_of (suc n) n

-- `.padStart(2, "0")`
abbrev pub pad_two : List ℕ → List ℕ
pad_two [] = b'0' ∷ b'0' ∷ []
pad_two (c ∷ []) = b'0' ∷ c ∷ []
pad_two s = s

unfoldable pub label : ℕ → ℕ → ℕ → List ℕ
unfolding decimal
label h m s = pad_two (decimal h) ++ b':' ∷ (pad_two (decimal m) ++ b':' ∷ pad_two (decimal s))

unfoldable pub countdown : Option ℕ → ℕ → Countdown
unfolding label
countdown none now = unknown
countdown (some to) now =
    if leb to now
    then live
    else (let diff = to - now in
        let s = diff / 1000 % 60 in
        let m = diff / 60000 % 60 in let h = diff / 3600000 in remaining h m s (label h m s))

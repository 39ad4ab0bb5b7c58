-- ===== src/Checkout/Input.antt =====
-- The text of seat ids, as a list of code units, and what becomes of it.
use crowdtic.Base.{ℕ, List, [], ◌∷◌, ◌++◌, map, is_empty, is_space, ◌==◌, ◌&&◌, if◌then◌else◌}

-- Puts a code unit in front of the first part.
abbrev pub push_front : ℕ → List (List ℕ) → List (List ℕ)
push_front c [] = (c ∷ []) ∷ []
push_front c (part ∷ parts) = (c ∷ part) ∷ parts

-- `s.split(",")`
unfoldable pub split_commas : List ℕ → List (List ℕ)
split_commas [] = [] ∷ []
split_commas (c ∷ s) =
    let rest = split_commas s in if c == b',' then [] ∷ rest else push_front c rest

unfoldable pub trim_start : List ℕ → List ℕ
trim_start [] = []
trim_start (c ∷ s) = let rest = trim_start s in if is_space c then rest else c ∷ s

unfoldable pub trim_end : List ℕ → List ℕ
trim_end [] = []
trim_end (c ∷ s) = let rest = trim_end s in if is_space c && is_empty rest then [] else c ∷ rest

-- `s.trim()`
unfoldable pub trim_units : List ℕ → List ℕ
unfolding trim_start trim_end
trim_units s = trim_end (trim_start s)

-- `.filter(Boolean)`
unfoldable pub drop_empty : List (List ℕ) → List (List ℕ)
drop_empty [] = []
drop_empty (s ∷ ss) = let rest = drop_empty ss in if is_empty s then rest else s ∷ rest

-- `seatInput.split(",").map((s) => s.trim()).filter(Boolean)`
unfoldable pub seat_list : List ℕ → List (List ℕ)
unfolding split_commas trim_units drop_empty
seat_list input = drop_empty (map trim_units (split_commas input))

-- What the button of a seat makes of the text.
unfoldable pub quick_pick : List ℕ → List ℕ → List ℕ
quick_pick id prev = if is_empty prev then id else prev ++ b',' ∷ b' ' ∷ id

-- ===== src/Token/Split.antt =====
-- `token.split(".")`.
use crowdtic.Base.{ℕ, List, [], ◌∷◌, if◌then◌else◌, ◌==◌}

-- Puts a code unit in front of the first part.
abbrev pub push_front : ℕ → List (List ℕ) → List (List ℕ)
push_front c [] = (c ∷ []) ∷ []
push_front c (part ∷ parts) = (c ∷ part) ∷ parts

unfoldable pub split_dots : List ℕ → List (List ℕ)
split_dots [] = [] ∷ []
split_dots (c ∷ s) =
    let parts = split_dots s in if c == b'.' then [] ∷ parts else push_front c parts

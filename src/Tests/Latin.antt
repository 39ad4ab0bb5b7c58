-- ===== src/Tests/Latin.antt =====
-- Which texts a header takes as they are: of code units below 256, without NUL and line ends.
use crowdtic.Base.{ℕ, String, Bool, true, not, ◌&&◌, ◌||◌, List, [], ◌∷◌, ltb, ◌==◌, codes}

unfoldable pub are_latin : List ℕ → Bool
are_latin [] = true
are_latin (c ∷ s) = ltb c 256 && not ((c == 0) || (c == 10) || (c == 13)) && are_latin s

unfoldable pub is_latin : String → Bool
unfolding are_latin codes
is_latin s = are_latin (codes s)

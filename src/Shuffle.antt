-- ===== src/Shuffle.antt =====
-- `shuffleInPlace` of edge/waiting-room/src/index.ts: Fisher-Yates over an array.
pub mod Perm
pub mod Reached
use crowdtic.Base.{ℕ, zero, suc, ◌+◌, ◌-◌, ◌*◌, ◌/◌, Option, some, List, length, get_elem?, set}
use crowdtic.Platform.{Platform}

-- 2⁵³, the denominator of `Math.random()`.
unfoldable pub random_unit : ℕ
random_unit = 9007199254740992

-- `Math.floor(Math.random() * (i + 1))`
unfoldable pub random_index : ℕ → ℕ → ℕ
random_index r i = r * (i + 1) / random_unit

module _ {A : Type 0} where
  exchange : List A → ℕ → ℕ → Option A → Option A → List A
  exchange a i j (some x) (some y) = set (set a i y) j x
  exchange a i j _ _ = a

  -- `tmp = a[i]; a[i] = a[j]; a[j] = tmp`, for two indices in range.
  unfoldable pub swap : List A → ℕ → ℕ → List A
  unfolding exchange
  swap a i j = exchange a i j (get_elem? a i) (get_elem? a j)

  module _ {W : Type 0} (p : Platform W) where
    -- The rounds from index `i` down to 1.
    unfoldable pub shuffle_from : ℕ → List A → W → List A × W
    shuffle_from zero a w = (a, w)
    shuffle_from (suc i) a w =
        let (r, w') = p.math_random w in shuffle_from i (swap a (suc i) (random_index r (suc i))) w'

    unfoldable pub shuffle_in_place : List A → W → List A × W
    unfolding shuffle_from
    shuffle_in_place a w = shuffle_from (length a - 1) a w

-- ===== src/Shuffle/Perm.antt =====
-- The shuffle loses nobody and makes nobody up, whatever the random numbers are.
use mathlib.Core.List.Perm
use crowdtic.Base.{
  ℕ, zero, suc, ◌-◌, ◌≡◌, refl, Option, none, some, List, [], ◌∷◌, length, get_elem?, set, Perm,
}
use crowdtic.Platform.{Platform}
use crowdtic.Shuffle.{swap, shuffle_from, shuffle_in_place, exchange}

module _ {A : Type 0} where
  -- A write of `v` over `x` puts `v` in and takes `x` out.
  set-perm : (a : List A) (i : ℕ) (x v : A) → get_elem? a i ≡ some x → Perm (x ∷ set a i v) (v ∷ a)
  set-perm [] i x v e = cc
  set-perm (y ∷ a) zero x v e = let q : y ≡ x = cc e in rw q (Perm.swap v x a)
  set-perm (y ∷ a) (suc i) x v e =
      Perm.trans (Perm.swap y x (set a i v))
        (Perm.trans (Perm.cons y (set-perm a i x v e)) (Perm.swap v y a))

  get_elem?-set :
      (a : List A) (i j : ℕ) (x y : A)
      → get_elem? a i ≡ some x
      → get_elem? a j ≡ some y
      → get_elem? (set a i y) j ≡ some y
  get_elem?-set [] i j x y e f = cc
  get_elem?-set (z ∷ a) zero zero x y e f = refl
  get_elem?-set (z ∷ a) zero (suc j) x y e f = f
  get_elem?-set (z ∷ a) (suc i) zero x y e f = f
  get_elem?-set (z ∷ a) (suc i) (suc j) x y e f = get_elem?-set a i j x y e f

  exchange-perm :
      (a : List A) (i j : ℕ) (o q : Option A)
      → get_elem? a i ≡ o
      → get_elem? a j ≡ q
      → Perm (exchange a i j o q) a
  unfolding exchange
  exchange-perm a i j (some x) (some y) e f =
      Perm.cons_inv
        (Perm.trans (set-perm (set a i y) j y x (get_elem?-set a i j x y e f)) (set-perm a i x y e))
  exchange-perm a i j (some x) none e f = Perm.refl a
  exchange-perm a i j none q e f = Perm.refl a

  pub swap-perm : (a : List A) (i j : ℕ) → Perm (swap a i j) a
  unfolding swap
  swap-perm a i j = exchange-perm a i j (get_elem? a i) (get_elem? a j) refl refl

  module _ {W : Type 0} (p : Platform W) where
    shuffle_from-perm : (n : ℕ) (a : List A) (w : W) → Perm (shuffle_from p n a w).0 a
    unfolding shuffle_from
    shuffle_from-perm zero a w = Perm.refl a
    shuffle_from-perm (suc n) a w =
        Perm.trans (shuffle_from-perm n _ (p.math_random w).1) (swap-perm a (suc n) _)

    -- Whatever the random numbers are, the shuffled array holds the same members as often.
    pub shuffle_in_place-perm : (a : List A) (w : W) → Perm (shuffle_in_place p a w).0 a
    unfolding shuffle_in_place
    shuffle_in_place-perm a w = shuffle_from-perm (length a - 1) a w

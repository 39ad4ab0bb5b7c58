-- ===== src/Shuffle/Reached.antt =====
-- Every order of the array is reached: the shuffle leaves none out.
use mathlib.Core.Logic.Or
use mathlib.Core.Logic.{∥∥₁_elim, ∥∥₁_map, ∥∥₁_prop}
use mathlib.Core.List.Perm
use mathlib.Core.List.{
  Permᴰ, append_of_mem, mem-cons, perm-append_right_iff, mem-append, mem-cons_self, not-mem-nil,
  append_assoc, append-nil,
}
use native.Mathlib.Nat.{div-eq_of_lt-le, lt-div-mul-add, div-mul-le_self}
use crowdtic.Base.{
  ℕ, zero, suc, ◌+◌, ◌-◌, ◌*◌, ◌/◌, ◌<◌, ◌≤◌, ◌≡◌, refl, sym, ap, subst, ◌∙◌, Option, none, some,
  List, [], ◌∷◌, ◌++◌, length, get_elem?, set, Perm, Mem, All, arith, length-append, length-set,
}
use crowdtic.Platform.{Platform}
use crowdtic.Shuffle.Perm.{swap-perm}
use crowdtic.Shuffle.{swap, shuffle_from, shuffle_in_place, exchange, random_index, random_unit}

module _ {A : Type 0} where
  last-mem : (r : List A) (x : A) → Mem x (r ++ x ∷ [])
  last-mem r x = mem-append.1 (Or.inr mem-cons_self)

  length-permᴰ : {a b : List A} → Permᴰ a b → length a ≡ length b
  length-permᴰ Permᴰ.nil = refl
  length-permᴰ (Permᴰ.cons e h) = ap suc (length-permᴰ h)
  length-permᴰ (Permᴰ.swap e f) = refl
  length-permᴰ (Permᴰ.trans h k) = length-permᴰ h ∙ length-permᴰ k

  length-perm : {a b : List A} → Perm a b → length a ≡ length b
  length-perm h = ∥∥₁_elim h (hlevel) length-permᴰ

  get_elem?-length : (s t : List A) (x : A) → get_elem? (s ++ x ∷ t) (length s) ≡ some x
  get_elem?-length [] t x = refl
  get_elem?-length (y ∷ s) t x = get_elem?-length s t x

  get_elem?-append : (s t : List A) (i : ℕ) → i < length s → get_elem? (s ++ t) i ≡ get_elem? s i
  get_elem?-append [] t i h = absurd (omega arith)
  get_elem?-append (y ∷ s) t zero h = refl
  get_elem?-append (y ∷ s) t (suc i) h = get_elem?-append s t i (omega arith)

  set-append : (s t : List A) (i : ℕ) (v : A) → i < length s → set (s ++ t) i v ≡ set s i v ++ t
  set-append [] t i v h = absurd (omega arith)
  set-append (y ∷ s) t zero v h = refl
  set-append (y ∷ s) t (suc i) v h = ap (λ (l : List A). y ∷ l) (set-append s t i v (omega arith))

  exchange-append :
      (s t : List A) (i j : ℕ) (o q : Option A)
      → i < length s
      → j < length s
      → exchange (s ++ t) i j o q ≡ exchange s i j o q ++ t
  unfolding exchange
  exchange-append s t i j (some x) (some y) hi hj =
      ap (λ (l : List A). set l j x) (set-append s t i y hi)
      ∙ set-append (set s i y) t j x (omega (arith, length-set s i y))
  exchange-append s t i j (some x) none hi hj = refl
  exchange-append s t i j none q hi hj = refl

  -- An exchange within the front leaves the rest alone.
  swap-append :
      (s t : List A) (i j : ℕ) → i < length s → j < length s → swap (s ++ t) i j ≡ swap s i j ++ t
  unfolding swap
  swap-append s t i j hi hj =
      rw (get_elem?-append s t i hi, get_elem?-append s t j hj) (exchange-append s t i j _ _ hi hj)

  -- A list whose last member is known, taken apart.
  snoc_of_last :
      (i : ℕ) (l : List A) (x : A)
      → length l ≡ suc i
      → get_elem? l i ≡ some x
      → (r : List A) × (l ≡ r ++ x ∷ []) × (length r ≡ i)
  snoc_of_last i [] x n e = absurd (omega arith)
  snoc_of_last zero (y ∷ []) x n e = ([], cc, refl)
  snoc_of_last zero (y ∷ z ∷ l) x n e = absurd (omega arith)
  snoc_of_last (suc i) (y ∷ l) x n e =
      let (r, h, k) = snoc_of_last i l x (omega arith) e in
      (y ∷ r, ap (λ (m : List A). y ∷ m) h, ap suc k)

  get_elem?-last : (i : ℕ) (l : List A) → length l ≡ suc i → (x : A) × (get_elem? l i ≡ some x)
  get_elem?-last i [] n = absurd (omega arith)
  get_elem?-last zero (y ∷ l) n = (y, refl)
  get_elem?-last (suc i) (y ∷ l) n = get_elem?-last i l (omega arith)

  get_elem?-set_self :
      (l : List A) (i : ℕ) (v : A) → i < length l → get_elem? (set l i v) i ≡ some v
  get_elem?-set_self [] i v h = absurd (omega arith)
  get_elem?-set_self (y ∷ l) zero v h = refl
  get_elem?-set_self (y ∷ l) (suc i) v h = get_elem?-set_self l i v (omega arith)

  -- What is read at `i` after `x`, which stood there, went to `j` and `y` came from `j`.
  get_elem?-exchange :
      (l : List A) (i j : ℕ) (x y : A)
      → get_elem? l i ≡ some x
      → get_elem? l j ≡ some y
      → get_elem? (set (set l i y) j x) i ≡ some y
  get_elem?-exchange [] i j x y e f = cc
  get_elem?-exchange (z ∷ l) zero zero x y e f = sym e ∙ f
  get_elem?-exchange (z ∷ l) zero (suc j) x y e f = refl
  get_elem?-exchange (z ∷ l) (suc i) zero x y e f = get_elem?-set_self l i y (below l i e)
    where
      below : (l : List A) (i : ℕ) {x : A} → get_elem? l i ≡ some x → i < length l
      below [] i e = cc
      below (z ∷ l) zero e = omega arith
      below (z ∷ l) (suc i) e = omega (arith, below l i e)
  get_elem?-exchange (z ∷ l) (suc i) (suc j) x y e f = get_elem?-exchange l i j x y e f

  get_elem?-swap :
      (l : List A) (i j : ℕ) (y : A)
      → length l ≡ suc i
      → get_elem? l j ≡ some y
      → get_elem? (swap l i j) i ≡ some y
  unfolding swap exchange
  get_elem?-swap l i j y n f =
      let (x, e) = get_elem?-last i l n in rw (e, f) (get_elem?-exchange l i j x y e f)

draw_below :
    (i j r : ℕ)
    → i < 9007199254740992
    → j ≤ i
    → r * (i + 1) ≤ j * 9007199254740992 + i
    → r < 9007199254740992
draw_below i j r h k low = grind arith

-- Each index up to `i` is drawn by some random number.
random_index-onto :
    (i j : ℕ) → i < random_unit → j ≤ i → (r : ℕ) × (r < random_unit) × (random_index r i ≡ j)
unfolding random_index random_unit
random_index-onto i j h k =
    let m : ℕ = j * 9007199254740992 + i in
    let r : ℕ = m / (i + 1) in
    let low : r * (i + 1) ≤ m = div-mul-le_self m (i + 1) in
    let high : m < r * (i + 1) + (i + 1) = lt-div-mul-add (omega arith) in
    (
      r,
      draw_below i j r h k low,
      div-eq_of_lt-le {k = j} 9007199254740992 (omega arith) (omega arith),
    )

module _ {A W : Type 0} (p : Platform W) (deal : List ℕ → W)
    (drawn : (r : ℕ) (rs : List ℕ) → p.math_random (deal (r ∷ rs)) ≡ (r, deal rs)) where
  -- Random numbers that take the rounds from `n` down from `a` to `b`.
  abbrev Reaches : ℕ → List A → List A → Type 0
  Reaches n a b =
      ∥ ((rs : List ℕ) × All (λ r. r < random_unit) rs × ((shuffle_from p n a (deal rs)).0 ≡ b)) ∥₁

  one_alone : (b : List A) (y : A) → Perm b (y ∷ []) → ∥ (b ≡ y ∷ []) ∥₁
  one_alone [] y h = absurd (omega (arith, length-perm h))
  one_alone (z ∷ []) y h =
      Or.elim ∥∥₁_prop (mem-cons.0 ((Perm.mem_iff h).0 (mem-cons.1 (Or.inl refl))))
        (λ e. ∣ ap (λ (v : A). v ∷ []) e ∣₁) (λ m. absurd (not-mem-nil m))
  one_alone (z ∷ v ∷ b) y h = absurd (omega (arith, length-perm h))

  shuffle_from-suc :
      (n : ℕ) (a : List A) (w : W)
      → shuffle_from p (suc n) a w
        ≡ shuffle_from p n
            (swap a (suc n) (random_index (p.math_random w).0 (suc n)))
            (p.math_random w).1
  unfolding shuffle_from
  shuffle_from-suc n a w = refl

  -- One round more, whose random number takes the last of `a` to its place.
  Reaches-suc :
      (n j d : ℕ) (a q b rest : List A) (x : A)
      → d < random_unit
      → random_index d (suc n) ≡ j
      → length a ≡ suc (suc n)
      → j ≤ suc n
      → swap a (suc n) j ≡ q ++ x ∷ []
      → Reaches n (q ++ x ∷ rest) b
      → Reaches (suc n) (a ++ rest) b
  Reaches-suc n j d a q b rest x small e len k moved found = ∥∥₁_map found (λ (rs, all_small, done).
      (
        d ∷ rs,
        (small, all_small),
        rw
            (
              shuffle_from-suc n (a ++ rest) (deal (d ∷ rs)),
              drawn d rs,
              e,
              swap-append a rest (suc n) j (omega arith) (omega arith),
              moved,
              append_assoc,
            )
            done,
      ))

  -- Where `x` stands in `a`, and what an exchange with the last place makes of `a`.
  moved_last :
      (n : ℕ) (a r s t : List A) (x : A)
      → length a ≡ suc (suc n)
      → Perm (r ++ x ∷ []) a
      → a ≡ s ++ x ∷ t
      → (q : List A) × (swap a (suc n) (length s) ≡ q ++ x ∷ [])
        × (length q ≡ suc n)
        × Perm r q
        × (length s ≤ suc n)
  moved_last n a r s t x len h e =
      let place : get_elem? a (length s) ≡ some x = rw e (get_elem?-length s t x) in
      let whole : length a ≡ length s + suc (length t) = rw e (length-append s (x ∷ t)) in
      let kept = swap-perm a (suc n) (length s) in
      let (q, moved, m) =
        snoc_of_last (suc n) (swap a (suc n) (length s)) x (length-perm kept ∙ len)
          (get_elem?-swap a (suc n) (length s) x len place) in
      (
        q,
        moved,
        m,
        (perm-append_right_iff (x ∷ [])).0
            (Perm.trans h (Perm.symm (subst (λ (l : List A). Perm l a) moved kept))),
        omega arith,
      )

  shuffle_from-Reaches :
      (n : ℕ) (a b rest : List A)
      → length a ≡ suc n
      → n < random_unit
      → Perm b a
      → Reaches n (a ++ rest) (b ++ rest)
  unfolding shuffle_from
  shuffle_from-Reaches n [] b rest len small h = absurd (omega arith)
  shuffle_from-Reaches zero (y ∷ z ∷ a) b rest len small h = absurd (omega arith)
  shuffle_from-Reaches zero (y ∷ []) b rest len small h =
      ∥∥₁_map (one_alone b y h) (λ e. ([], tt, ap (λ (l : List A). l ++ rest) (sym e)))
  shuffle_from-Reaches (suc n) (y ∷ a) b rest len small h =
      let n_b : length b ≡ suc (suc n) = length-perm h ∙ len in
      let (x, at_end) = get_elem?-last (suc n) b n_b in
      let (r, e, k) = snoc_of_last (suc n) b x n_b at_end in
      let h' = subst (λ (l : List A). Perm l (y ∷ a)) e h in
      let inside : Mem x (y ∷ a) = (Perm.mem_iff h').0 (last-mem r x) in
      ∥∥₁_elim (append_of_mem inside) ∥∥₁_prop (λ (s, t, split).
        let (q, moved, m, left, j_le) = moved_last n (y ∷ a) r s t x len h' split in
        let (d, d_small, index) = random_index-onto (suc n) (length s) small j_le in
        let deeper = shuffle_from-Reaches n q r (x ∷ rest) m (omega arith) left in
        Reaches-suc n (length s) d (y ∷ a) q (b ++ rest) rest x d_small index len j_le moved (
          subst (λ (l : List A). Reaches n (q ++ x ∷ rest) l)
            (sym (append_assoc r (x ∷ []) rest) ∙ ap (λ (l : List A). l ++ rest) (sym e)) deeper))

  -- Every order `b` of the members of an array `a` of at most 2⁵³ of them is the result of the
  -- shuffle for some random numbers, all below 2⁵³, if the source can deal any series of numbers.
  pub shuffle_in_place-Reaches :
      (a b : List A)
      → length a ≤ random_unit
      → Perm b a
      → ∥ (
          (rs : List ℕ) × All (λ r. r < random_unit) rs
          × ((shuffle_in_place p a (deal rs)).0 ≡ b)) ∥₁
  unfolding shuffle_in_place shuffle_from
  shuffle_in_place-Reaches [] b small h = ∣ ([], tt, sym (Perm.eq-nil h)) ∣₁
  shuffle_in_place-Reaches (y ∷ a) b small h =
      let found : Reaches (length a) (y ∷ a ++ []) (b ++ []) =
        shuffle_from-Reaches (length a) (y ∷ a) b [] refl (omega arith) h in
      let count : suc (length a) - 1 ≡ length a = omega arith in rw count (simp append-nil at found)

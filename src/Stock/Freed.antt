-- ===== src/Stock/Freed.antt =====
-- What redis/lua/release.lua leaves behind of a seat.
use crowdtic.Base.{
  ◌≡◌, refl, sym, ap, subst, ◌∙◌, inl, inr, String, str_eq, Bool, true, false, ◌&&◌, Bool-cases,
  Option, none, List, [], ◌∷◌, eq_iff, if◌then◌else◌,
}
use crowdtic.Stock.Calls.{
  Calls, HashLaws, inventory, seat, hold_key, Field, status, held_by, hold_id, expires_at, given,
  is_among, over,
}
use crowdtic.Stock.Hold.{is}
use crowdtic.Stock.Release.{ReleaseArgs, free_one, free_seats, release_script}
use crowdtic.Stock.Granted.{is_in}

-- A field of a freed seat.
abbrev pub freed : Field → Option String → Option String
freed g old =
    if is_among g (held_by ∷ hold_id ∷ expires_at ∷ [])
    then none
    else over (given g ((status, "AVAILABLE") ∷ [])) old

and_false : (b : Bool) → (b && false) ≡ false
and_false true = refl
and_false false = refl

module _ {W : Type 0} (r : Calls W) (hashes : HashLaws r) where
  open hashes use {hget-hmset, hget-hdel, hget-hincrby, hget-incrby, hget-persist, hget-del}

  free_writes :
      (s j : String) (g : Field) (w : W)
      → r.hget (seat j) g (
          r.persist (seat s) (
            r.hdel
              (seat s)
              (held_by ∷ hold_id ∷ expires_at ∷ [])
              (r.hmset (seat s) ((status, "AVAILABLE") ∷ []) w)))
        ≡ (if str_eq s j then freed g (r.hget (seat j) g w) else r.hget (seat j) g w)
  free_writes s j g w = elim (Bool-cases (str_eq s j)) [
    | inl same ↦
        hget-persist (seat s) (seat j) g _
        ∙ hget-hdel (seat s) (seat j) _ g _
        ∙ rw (hget-hmset (seat s) (seat j) ((status, "AVAILABLE") ∷ []) g w, same) refl
    | inr other ↦
        hget-persist (seat s) (seat j) g _
        ∙ hget-hdel (seat s) (seat j) _ g _
        ∙ rw (hget-hmset (seat s) (seat j) ((status, "AVAILABLE") ∷ []) g w, other) refl
  ]

  -- A loop's round, at a seat that is freed by it and at any other.
  free_one-freed :
      (hold s : String) (g : Field) (w : W)
      → is (r.hget (seat s) hold_id w) hold ≡ true
      → r.hget (seat s) g (free_one r hold s w) ≡ freed g (r.hget (seat s) g w)
  unfolding free_one
  free_one-freed hold s g w h = rw h (free_writes s s g w ∙ rw ((eq_iff s s).1 refl) refl)

  free_one-freed_at :
      (hold s j : String) (w : W)
      → str_eq s j ≡ true
      → is (r.hget (seat j) hold_id w) hold ≡ true
      → (g : Field) → r.hget (seat j) g (free_one r hold s w) ≡ freed g (r.hget (seat j) g w)
  free_one-freed_at hold s j w same h g =
      let e : j ≡ s = sym ((eq_iff s j).0 same) in
      subst
        (λ (x : String). r.hget (seat x) g (free_one r hold s w) ≡ freed g (r.hget (seat x) g w))
        (sym e)
        (free_one-freed hold s g w
          (subst (λ (x : String). is (r.hget (seat x) hold_id w) hold ≡ true) e h))

  free_one-kept :
      (hold s j : String) (g : Field) (w : W)
      → (str_eq s j && is (r.hget (seat j) hold_id w) hold) ≡ false
      → r.hget (seat j) g (free_one r hold s w) ≡ r.hget (seat j) g w
  unfolding free_one
  free_one-kept hold s j g w h = elim (Bool-cases (is (r.hget (seat s) hold_id w) hold)) [
    | inr e ↦ rw e refl
    | inl e ↦ elim (Bool-cases (str_eq s j)) [
      | inr other ↦ rw e (free_writes s j g w ∙ rw other refl)
      | inl same ↦ cc (
        rw same at h,
        subst (λ (x : String). is (r.hget (seat x) hold_id w) hold ≡ true) ((eq_iff s j).0 same) e,
      )
    ]
  ]

  pub free_seats-kept :
      (hold : String) (ss : List String) (j : String) (g : Field) (w : W)
      → is (r.hget (seat j) hold_id w) hold ≡ false
      → r.hget (seat j) g (free_seats r hold ss w) ≡ r.hget (seat j) g w
  unfolding free_seats
  free_seats-kept hold [] j g w h = refl
  free_seats-kept hold (s ∷ ss) j g w h =
      let kept : (f : Field) → r.hget (seat j) f (free_one r hold s w) ≡ r.hget (seat j) f w =
        λ f. free_one-kept hold s j f w (rw h (and_false (str_eq s j))) in
      free_seats-kept hold ss j g (free_one r hold s w) (rw (kept hold_id) h) ∙ kept g

  pub free_seats-freed :
      (hold : String) (ss : List String) (j : String) (g : Field) (w : W)
      → is_in j ss ≡ true
      → is (r.hget (seat j) hold_id w) hold ≡ true
      → r.hget (seat j) g (free_seats r hold ss w) ≡ freed g (r.hget (seat j) g w)
  unfolding free_seats
  free_seats-freed hold [] j g w inside h = cc
  free_seats-freed hold (s ∷ ss) j g w inside h = elim (Bool-cases (str_eq s j)) [
    | inl same ↦
        let this = free_one-freed_at hold s j w same h in
        free_seats-kept hold ss j g (free_one r hold s w) (rw (this hold_id) refl) ∙ this g
    | inr other ↦
        let kept : (f : Field) → r.hget (seat j) f (free_one r hold s w) ≡ r.hget (seat j) f w =
          λ f. free_one-kept hold s j f w (rw other refl) in
        free_seats-freed hold ss j g (free_one r hold s w) (rw other at inside)
          (rw (kept hold_id) h)
        ∙ ap (freed g) (kept g)
  ]

  pub release_script-hget :
      (a : ReleaseArgs) (j : String) (g : Field) (w : W)
      → r.hget (seat j) g (release_script r a w).1
        ≡ r.hget (seat j) g (free_seats r a.hold a.seat_keys w)
  unfolding release_script
  release_script-hget a j g w =
      hget-del (hold_key a.event a.hold) (seat j) g _
      ∙ hget-incrby _ (seat j) _ g _
      ∙ hget-hincrby (inventory a.inv_key) (seat j) _ _ g _
      ∙ hget-hincrby (inventory a.inv_key) (seat j) _ _ g _

  pub free_seats-outside :
      (hold : String) (ss : List String) (j : String) (g : Field) (w : W)
      → is_in j ss ≡ false
      → r.hget (seat j) g (free_seats r hold ss w) ≡ r.hget (seat j) g w
  unfolding free_seats
  free_seats-outside hold [] j g w outside = refl
  free_seats-outside hold (s ∷ ss) j g w outside = elim (Bool-cases (str_eq s j)) [
    | inl same ↦ cc (rw same at outside)
    | inr other ↦
        free_seats-outside hold ss j g (free_one r hold s w) (rw other at outside)
        ∙ free_one-kept hold s j g w (rw other refl)
  ]

-- ===== src/Stock/Granted.antt =====
-- What redis/lua/hold.lua leaves behind.
use crowdtic.Base.{
  ◌*◌, ◌<◌, ◌≡◌, refl, ap, subst, ◌∙◌, inl, inr, String, str_eq, Bool, true, false, ◌||◌,
  Bool-cases, Option, none, some, List, [], ◌∷◌, All, arith, eq_iff, if◌then◌else◌,
}
use crowdtic.Stock.Calls.{Calls, HashLaws, seat, Field, status, given, over}
use crowdtic.Stock.Hold.{HoldArgs, is, first_taken, held_fields, mark_held, take_seats}

abbrev pub is_in : String → List String → Bool
is_in j [] = false
is_in j (s ∷ ss) = str_eq s j || is_in j ss

or_true : (b : Bool) → (b || true) ≡ true
or_true true = refl
or_true false = refl

pub is-some : (o : Option String) (s : String) → is o s ≡ true → o ≡ some s
is-some none s h = cc
is-some (some t) s h = ap some ((eq_iff t s).0 h)

module _ {W : Type 0} (r : Calls W) (hashes : HashLaws r) where
  open hashes use {hget-hmset, hget-hincrby, hget-incrby, hget-expire, hget-pexpire}

  -- To write `v` once or twice is the same.
  over_twice :
      (v old : Option String) (b c : Bool)
      → (if c then over v (if b then over v old else old) else (if b then over v old else old))
        ≡ (if b || c then over v old else old)
  over_twice none old true true = refl
  over_twice (some s) old true true = refl
  over_twice v old true false = refl
  over_twice v old false true = refl
  over_twice v old false false = refl

  -- A field of a seat after the loop that marks seats.
  mark_held-hget :
      (a : HoldArgs) (ss : List String) (j : String) (g : Field) (w : W)
      → 0 < a.ttl
      → r.hget (seat j) g (mark_held r a ss w) ≡ (
          if is_in j ss
          then over (given g (held_fields a)) (r.hget (seat j) g w)
          else r.hget (seat j) g w)
  unfolding mark_held
  mark_held-hget a [] j g w h = refl
  mark_held-hget a (s ∷ ss) j g w h =
      rw
        (
          mark_held-hget a ss j g
              (r.pexpire (seat s) (a.ttl * 1000) (r.hmset (seat s) (held_fields a) w)) h,
          hget-pexpire (seat s) (seat j) (a.ttl * 1000) g (r.hmset (seat s) (held_fields a) w)
              (omega arith),
          hget-hmset (seat s) (seat j) (held_fields a) g w,
        )
        (over_twice (given g (held_fields a)) (r.hget (seat j) g w) (str_eq s j) (is_in j ss))

  -- A field of a seat after a hold that is granted.
  pub take_seats-hget :
      (a : HoldArgs) (j : String) (g : Field) (w : W)
      → 0 < a.ttl
      → r.hget (seat j) g (take_seats r a w) ≡ (
          if is_in j a.seat_keys
          then over (given g (held_fields a)) (r.hget (seat j) g w)
          else r.hget (seat j) g w)
  unfolding take_seats
  take_seats-hget a j g w h =
      hget-expire _ (seat j) a.ttl g _ h
      ∙ hget-hmset _ (seat j) _ g _
      ∙ hget-expire _ (seat j) 86400 g _ (omega arith)
      ∙ hget-incrby _ (seat j) _ g _
      ∙ hget-hincrby _ (seat j) _ _ g _
      ∙ hget-hincrby _ (seat j) _ _ g _
      ∙ mark_held-hget a a.seat_keys j g w h

  abbrev pub IsFree : W → String → Type 0
  IsFree w s = r.hget (seat s) status w ≡ some "AVAILABLE"

  pub first_taken-none : (ss : List String) (w : W) → first_taken r ss w ≡ none → All (IsFree w) ss
  unfolding first_taken
  first_taken-none [] w e = tt
  first_taken-none (s ∷ ss) w e = elim (Bool-cases (is (r.hget (seat s) status w) "AVAILABLE")) [
    | inl free ↦ (is-some _ _ free, first_taken-none ss w (rw free at e))
    | inr taken ↦ cc (rw taken at e)
  ]

  pub first_taken-some :
      (ss : List String) (s : String) (w : W)
      → first_taken r ss w ≡ some s
      → (is_in s ss ≡ true) × (is (r.hget (seat s) status w) "AVAILABLE" ≡ false)
  unfolding first_taken
  first_taken-some [] s w e = cc
  first_taken-some (t ∷ ss) s w e = elim (Bool-cases (is (r.hget (seat t) status w) "AVAILABLE")) [
    | inl free ↦
        let (inside, not_free) = first_taken-some ss s w (rw free at e) in
        (rw inside (or_true (str_eq t s)), not_free)
    | inr taken ↦
        let same : t ≡ s = cc (rw taken at e) in
        (
          rw ((eq_iff t s).1 same) refl,
          subst (λ (x : String). is (r.hget (seat x) status w) "AVAILABLE" ≡ false) same taken,
        )
  ]

  -- The seats are held for the user, and no field of any other seat has changed.
  abbrev pub AreHeld : HoldArgs → W → W → Type 0
  AreHeld a w w' =
      (j : String) (g : Field)
      → r.hget (seat j) g w' ≡ (
          if is_in j a.seat_keys
          then over (given g (held_fields a)) (r.hget (seat j) g w)
          else r.hget (seat j) g w)

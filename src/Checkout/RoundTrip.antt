-- ===== src/Checkout/RoundTrip.antt =====
-- Seats put into the text by their buttons, and read out of it again.
use mathlib.Core.List.{append-nil, append_assoc, map-append}
use crowdtic.Base.{
  Bool-cases, inl, inr, ◌==◌, ℕ, ◌≡◌, ◌≢◌, refl, sym, false, List, [], ◌∷◌, ◌++◌, map, All,
  is_empty, is_space, arith, ap,
}
use crowdtic.Checkout.Input.{
  split_commas, push_front, trim_start, trim_end, trim_units, drop_empty, seat_list, quick_pick,
}

-- A code unit of an id: neither a comma nor white space.
abbrev pub IsPlain : ℕ → Type 0
IsPlain c = (c ≢ b',') × (is_space c ≡ false)

split_commas_plain : (id : List ℕ) → All IsPlain id → split_commas id ≡ id ∷ []
unfolding split_commas
split_commas_plain [] h = refl
split_commas_plain (c ∷ id) h = ground (arith, split_commas_plain id h.1, h.0.0)

push_front_cons : (c : ℕ) (xs : List (List ℕ)) → is_empty (push_front c xs) ≡ false
push_front_cons c [] = refl
push_front_cons c (x ∷ xs) = refl

split_commas_cons : (s : List ℕ) → is_empty (split_commas s) ≡ false
unfolding split_commas
split_commas_cons [] = refl
split_commas_cons (c ∷ s) = elim (Bool-cases (c == b',')) [
  | inl comma ↦ rw comma refl
  | inr part ↦ rw part (push_front_cons c (split_commas s))
]

push_front-append :
    (c : ℕ) (xs ys : List (List ℕ))
    → is_empty xs ≡ false
    → push_front c (xs ++ ys) ≡ push_front c xs ++ ys
push_front-append c [] ys h = cc
push_front-append c (x ∷ xs) ys h = refl

split_commas-append :
    (s t : List ℕ) → split_commas (s ++ b',' ∷ t) ≡ split_commas s ++ split_commas t
unfolding split_commas
split_commas-append [] t = refl
split_commas-append (c ∷ s) t = elim (Bool-cases (c == b',')) [
  | inl comma ↦ rw (comma, split_commas-append s t) refl
  | inr part ↦
      rw (part, split_commas-append s t)
        (push_front-append c (split_commas s) (split_commas t) (split_commas_cons s))
]

trim_start_plain : (id : List ℕ) → All IsPlain id → trim_start id ≡ id
unfolding trim_start
trim_start_plain [] h = refl
trim_start_plain (c ∷ id) h = rw (h.0.1) refl

trim_end_plain : (id : List ℕ) → All IsPlain id → trim_end id ≡ id
unfolding trim_end
trim_end_plain [] h = refl
trim_end_plain (c ∷ id) h = rw (h.0.1, trim_end_plain id h.1) refl

drop_empty-append : (xs ys : List (List ℕ)) → drop_empty (xs ++ ys) ≡ drop_empty xs ++ drop_empty ys
unfolding drop_empty
drop_empty-append [] ys = refl
drop_empty-append (x ∷ xs) ys = elim (Bool-cases (is_empty x)) [
  | inl gone ↦ rw gone (drop_empty-append xs ys)
  | inr stays ↦ rw stays (ap (λ zs. x ∷ zs) (drop_empty-append xs ys))
]

trim_units_plain : (id : List ℕ) → All IsPlain id → trim_units id ≡ id
unfolding trim_units
trim_units_plain id h = rw (trim_start_plain id h) (trim_end_plain id h)

-- The blank that a button puts after the comma is cut off again.
trim_units_blank : (id : List ℕ) → All IsPlain id → trim_units (b' ' ∷ id) ≡ id
unfolding trim_units trim_start is_space
trim_units_blank id h = rw (trim_start_plain id h) (trim_end_plain id h)

split_commas_blank : (id : List ℕ) → All IsPlain id → split_commas (b' ' ∷ id) ≡ (b' ' ∷ id) ∷ []
unfolding split_commas
split_commas_blank id h = rw (split_commas_plain id h) refl

seat_list-append : (s t : List ℕ) → seat_list (s ++ b',' ∷ t) ≡ seat_list s ++ seat_list t
unfolding seat_list
seat_list-append s t =
    rw (split_commas-append s t, map-append trim_units (split_commas s) (split_commas t))
      (drop_empty-append (map trim_units (split_commas s)) (map trim_units (split_commas t)))

seat_list_plain : (id : List ℕ) → All IsPlain id → is_empty id ≡ false → seat_list id ≡ id ∷ []
unfolding seat_list drop_empty
seat_list_plain id plain full =
    rw (split_commas_plain id plain, trim_units_plain id plain, full) refl

seat_list_blank :
    (id : List ℕ) → All IsPlain id → is_empty id ≡ false → seat_list (b' ' ∷ id) ≡ id ∷ []
unfolding seat_list drop_empty
seat_list_blank id plain full =
    rw (split_commas_blank id plain, trim_units_blank id plain, full) refl

-- At least one character, no comma and no white space.
pub record IsId (id : List ℕ) : Type 0 where
  pub plain : All IsPlain id
  pub full : is_empty id ≡ false

-- The button of a seat adds the id of that seat to those that are read out of the text, whatever
-- the text was.
pub seat_list-quick_pick :
    (id prev : List ℕ) → IsId id → seat_list (quick_pick id prev) ≡ seat_list prev ++ id ∷ []
unfolding quick_pick seat_list
seat_list-quick_pick id [] h = seat_list_plain id h.plain h.full
seat_list-quick_pick id (c ∷ prev) h =
    rw (seat_list-append (c ∷ prev) (b' ' ∷ id), seat_list_blank id h.plain h.full) refl

-- The text after the buttons of some seats.
unfoldable pub quick_picks : List (List ℕ) → List ℕ → List ℕ
quick_picks [] prev = prev
quick_picks (id ∷ ids) prev = quick_picks ids (quick_pick id prev)

-- Seats put into a text by their buttons are read out of it again, after those that were in it and
-- in the order of the clicks; an id has at least one character, no comma and no white space.
pub seat_list-quick_picks :
    (ids : List (List ℕ)) (prev : List ℕ)
    → All IsId ids
    → seat_list (quick_picks ids prev) ≡ seat_list prev ++ ids
unfolding quick_picks
seat_list-quick_picks [] prev h = sym (append-nil (seat_list prev))
seat_list-quick_picks (id ∷ ids) prev h =
    rw (seat_list-quick_picks ids (quick_pick id prev) h.1, seat_list-quick_pick id prev h.0)
      (append_assoc (seat_list prev) (id ∷ []) ids)

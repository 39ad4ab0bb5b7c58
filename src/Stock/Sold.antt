-- ===== src/Stock/Sold.antt =====
-- What redis/lua/commit.lua leaves behind.
use crowdtic.Base.{
  ◌≡◌, refl, ap, subst, ◌∙◌, inl, inr, String, str_eq, Bool, true, false, ◌&&◌, ◌||◌, Bool-cases,
  Option, none, some, List, [], ◌∷◌, length, eq_iff, if◌then◌else◌,
}
use crowdtic.Base.Int.{ℤ, pos, ltb_ℤ, or_zero}
use crowdtic.Env.{is_set}
use crowdtic.Stock.Calls.{
  Calls, HashLaws, inventory, seat, hold_key, Field, status, held_by, hold_id, expires_at, sold_at,
  sold_by, held, sold, version, given, is_among, over,
}
use crowdtic.Stock.Hold.{is}
use crowdtic.Stock.Commit.{
  CommitArgs, Buyer, stamp, sell_one, sell_seats, decrement, take_off, remember, sell,
}
use crowdtic.Stock.Granted.{is_in}

same_anyway :
    (b : Bool) (o : Option String) → (if b && false then none else (if b then o else o)) ≡ o
same_anyway true o = refl
same_anyway false o = refl

module _ {W : Type 0} (r : Calls W) (hashes : HashLaws r) where
  open hashes use {hget-hmset, hget-hdel, hget-hincrby, hget-set_ex, hget-persist, hget-del}

  abbrev sale_fields : String → String → List (Field × String)
  sale_fields user ts = (status, "SOLD") ∷ (sold_at, ts) ∷ (sold_by, user) ∷ []

  -- The writes of one sale, at any field of any seat.
  sale_writes :
      (user ts s j : String) (g : Field) (w : W)
      → r.hget (seat j) g (
          r.hincrby (seat s) version (pos 1) (
            r.persist
              (seat s)
              (r.hdel (seat s) (expires_at ∷ []) (r.hmset (seat s) (sale_fields user ts) w))))
        ≡ (if str_eq s j && is_among g (expires_at ∷ [])
            then none
            else (if str_eq s j
                then over (given g (sale_fields user ts)) (r.hget (seat j) g w)
                else r.hget (seat j) g w))
  sale_writes user ts s j g w =
      hget-hincrby (seat s) (seat j) version (pos 1) g _
      ∙ hget-persist (seat s) (seat j) g _
      ∙ hget-hdel (seat s) (seat j) (expires_at ∷ []) g _
      ∙ rw (hget-hmset (seat s) (seat j) (sale_fields user ts) g w) refl

  -- The fields that say who holds a seat stay.
  abbrev pub Keeps : Field → W → W → Type 0
  Keeps g w w' = (j : String) → r.hget (seat j) g w' ≡ r.hget (seat j) g w

  sell_one-hold_id : (user ts s : String) (w : W) → Keeps hold_id w (sell_one r user ts s w)
  unfolding sell_one
  sell_one-hold_id user ts s w j = elim (Bool-cases (is (r.hget (seat s) status w) "HELD")) [
    | inl yes_held ↦
        rw yes_held
          (sale_writes user ts s j hold_id w ∙ same_anyway (str_eq s j) (r.hget (seat j) hold_id w))
    | inr other ↦ rw other refl
  ]

  sell_one-held_by : (user ts s : String) (w : W) → Keeps held_by w (sell_one r user ts s w)
  unfolding sell_one
  sell_one-held_by user ts s w j = elim (Bool-cases (is (r.hget (seat s) status w) "HELD")) [
    | inl yes_held ↦
        rw yes_held
          (sale_writes user ts s j held_by w ∙ same_anyway (str_eq s j) (r.hget (seat j) held_by w))
    | inr other ↦ rw other refl
  ]

  -- A status after it was `HELD` and the seat was sold, or not.
  abbrev pub after_sale : Bool → Option String → Option String
  after_sale b o = if b && is o "HELD" then some "SOLD" else o

  sell_one-status_self :
      (user ts s : String) (w : W)
      → r.hget (seat s) status (sell_one r user ts s w)
        ≡ after_sale (str_eq s s) (r.hget (seat s) status w)
  unfolding sell_one
  sell_one-status_self user ts s w = elim (Bool-cases (is (r.hget (seat s) status w) "HELD")) [
    | inl yes_held ↦
        rw (yes_held, (eq_iff s s).1 refl)
          (sale_writes user ts s s status w ∙ rw ((eq_iff s s).1 refl) refl)
    | inr other ↦ rw (other, (eq_iff s s).1 refl) refl
  ]

  sell_one-status_other :
      (user ts s j : String) (w : W)
      → str_eq s j ≡ false
      → r.hget (seat j) status (sell_one r user ts s w) ≡ r.hget (seat j) status w
  unfolding sell_one
  sell_one-status_other user ts s j w ne =
      elim (Bool-cases (is (r.hget (seat s) status w) "HELD")) [
        | inl yes_held ↦ rw yes_held (sale_writes user ts s j status w ∙ rw ne refl)
        | inr other ↦ rw other refl
      ]

  sell_one-status :
      (user ts s j : String) (w : W)
      → r.hget (seat j) status (sell_one r user ts s w)
        ≡ after_sale (str_eq s j) (r.hget (seat j) status w)
  sell_one-status user ts s j w = elim (Bool-cases (str_eq s j)) [
    | inl same ↦
        subst
          (λ (x : String).
            r.hget (seat x) status (sell_one r user ts s w)
            ≡ after_sale (str_eq s x) (r.hget (seat x) status w))
          ((eq_iff s j).0 same) (sell_one-status_self user ts s w)
    | inr other ↦ rw other (sell_one-status_other user ts s j w other)
  ]

  after_sale_twice :
      (b c : Bool) (o : Option String) → after_sale c (after_sale b o) ≡ after_sale (b || c) o
  after_sale_twice true true none = refl
  after_sale_twice true false none = refl
  after_sale_twice true true (some s) = elim (Bool-cases (str_eq s "HELD")) [
    | inl e ↦ rw e refl
    | inr e ↦ rw e (rw e refl)
  ]
  after_sale_twice true false (some s) = refl
  after_sale_twice false c o = refl

  pub sell_seats-status :
      (user ts : String) (ss : List String) (j : String) (w : W)
      → r.hget (seat j) status (sell_seats r user ts ss w)
        ≡ after_sale (is_in j ss) (r.hget (seat j) status w)
  unfolding sell_seats
  sell_seats-status user ts [] j w = refl
  sell_seats-status user ts (s ∷ ss) j w =
      sell_seats-status user ts ss j (sell_one r user ts s w)
      ∙ ap (after_sale (is_in j ss)) (sell_one-status user ts s j w)
      ∙ after_sale_twice (str_eq s j) (is_in j ss) (r.hget (seat j) status w)

  pub sell_seats-hold_id :
      (user ts : String) (ss : List String) (w : W) → Keeps hold_id w (sell_seats r user ts ss w)
  unfolding sell_seats
  sell_seats-hold_id user ts [] w j = refl
  sell_seats-hold_id user ts (s ∷ ss) w j =
      sell_seats-hold_id user ts ss (sell_one r user ts s w) j ∙ sell_one-hold_id user ts s w j

  pub sell_seats-held_by :
      (user ts : String) (ss : List String) (w : W) → Keeps held_by w (sell_seats r user ts ss w)
  unfolding sell_seats
  sell_seats-held_by user ts [] w j = refl
  sell_seats-held_by user ts (s ∷ ss) w j =
      sell_seats-held_by user ts ss (sell_one r user ts s w) j ∙ sell_one-held_by user ts s w j

  -- The keys that remember an order are no seats.
  pub remember-hget :
      (b : Buyer) (o : Option String) (g : Field) (w : W) → Keeps g w (remember r b o w)
  unfolding remember
  remember-hget b o g w j = elim (Bool-cases (is_set o)) [
    | inl there ↦
        rw there (hget-set_ex _ (seat j) _ _ g _ refl ∙ hget-set_ex _ (seat j) _ _ g w refl)
    | inr missing ↦ rw missing refl
  ]

  take_off-hget : (inv : String) (n : ℤ) (g : Field) (w : W) → Keeps g w (take_off r inv n w)
  unfolding take_off
  take_off-hget inv n g w j =
      elim (Bool-cases
        (ltb_ℤ (pos 0) (decrement (or_zero (r.hget_number (inventory inv) held w)) n))) [
          | inl some_held ↦ rw some_held (hget-hincrby (inventory inv) (seat j) held _ g w)
          | inr nothing ↦ rw nothing refl
        ]

  -- Of the seats, a sale changes only what its loop changes.
  pub sell-hget :
      (a : CommitArgs) (b : Buyer) (g : Field) (w : W)
      → Keeps g (sell_seats r b.user (stamp r a.sold_at_ms w) a.seat_keys w) (sell r a b w).1
  unfolding sell
  sell-hget a b g w j =
      remember-hget b a.order g _ j
      ∙ hget-del (hold_key b.event b.hold) (seat j) g _
      ∙ hget-hincrby (inventory a.inv_key) (seat j) sold _ g _
      ∙ take_off-hget a.inv_key (pos (length a.seat_keys)) g _ j

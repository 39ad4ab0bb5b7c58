-- ===== src/Stock/Decided.antt =====
-- When redis/lua/hold.lua grants a hold, and what it then has done.
use crowdtic.Base.{
  ◌<◌, ◌≡◌, refl, subst, inl, inr, String, true, false, Bool-cases, Option, none, some, length, All,
}
use crowdtic.Base.Int.{ℤ, pos, ◌+ℤ◌, ◌-ℤ◌, ltb_ℤ, or_zero}
use crowdtic.Stock.Calls.{
  Calls, HashLaws, NumberLaws, inventory, seat, user_limit, status, available, held,
}
use crowdtic.Stock.Hold.{
  HoldArgs, HoldReply, ok_held, inv_not_found, sold_out, limit_exceeded, seat_taken, is,
  first_taken, need, take_seats, hold_free, hold_counted, hold_script,
}
use crowdtic.Stock.Granted.{
  is_in, IsFree, AreHeld, take_seats-hget, first_taken-none, first_taken-some,
}
use crowdtic.Stock.Counted.{take_seats-available, take_seats-held, take_seats-limit}

module _ {W : Type 0} (r : Calls W) (hashes : HashLaws r) (numbers : NumberLaws r)
    (a : HoldArgs) where
  abbrev pub stock : W → Option ℤ
  stock w = r.hget_number (inventory a.inv_key) available w

  -- What the user holds and has bought of the event.
  abbrev pub taken_by_user : W → ℤ
  taken_by_user w = or_zero (r.get_number (user_limit a.event a.user) w)

  -- Enough is in stock, the limit is kept and all seats are free; then the seats are held, and the
  -- three counters have moved by their number.
  pub record IsGranted (w w' : W) : Type 0 where
    pub count : ℤ
    pub in_stock : stock w ≡ some count
    pub enough : ltb_ℤ count (need a) ≡ false
    pub within : ltb_ℤ a.max_per_user (taken_by_user w +ℤ need a) ≡ false
    pub free : All (IsFree r hashes w) a.seat_keys
    pub seats_held : AreHeld r hashes a w w'
    pub stock_after : stock w' ≡ some (count +ℤ (pos 0 -ℤ need a))
    pub held_after :
        r.hget_number (inventory a.inv_key) held w'
        ≡ some (or_zero (r.hget_number (inventory a.inv_key) held w) +ℤ need a)
    pub limit_after : r.get_number (user_limit a.event a.user) w' ≡ some (taken_by_user w +ℤ need a)

  -- Why a hold is refused; each reason says that a condition of a grant fails.
  pub data IsRefused (w : W) : HoldReply → Type 0 where
    unknown : stock w ≡ none → IsRefused w inv_not_found
    too_few : (n : ℤ) → stock w ≡ some n → ltb_ℤ n (need a) ≡ true → IsRefused w sold_out
    over_limit :
        ltb_ℤ a.max_per_user (taken_by_user w +ℤ need a) ≡ true → IsRefused w limit_exceeded
    not_free :
        (s : String)
        → is_in s a.seat_keys ≡ true
        → is (r.hget (seat s) status w) "AVAILABLE" ≡ false
        → IsRefused w (seat_taken s)

  pub data IsDecided (w : W) : HoldReply → W → Type 0 where
    granted : {w' : W} → IsGranted w w' → IsDecided w (ok_held a.hold (length a.seat_keys)) w'
    refused : {reply : HoldReply} {w' : W} → IsRefused w reply → w' ≡ w → IsDecided w reply w'

  abbrev Holds : W → HoldReply × W → Type 0
  Holds w (reply, w') = IsDecided w reply w'

  module _ (positive : 0 < a.ttl) (w : W) where
    hold_free-IsDecided :
        (n : ℤ)
        → stock w ≡ some n
        → ltb_ℤ n (need a) ≡ false
        → ltb_ℤ a.max_per_user (taken_by_user w +ℤ need a) ≡ false
        → (o : Option String) → first_taken r a.seat_keys w ≡ o
        → Holds w (hold_free r a w o)
    unfolding hold_free
    hold_free-IsDecided n e enough within none f = granted (record {
      count = n;
      in_stock = e;
      enough = enough;
      within = within;
      free = first_taken-none r hashes a.seat_keys w f;
      seats_held = λ j g. take_seats-hget r hashes a j g w positive;
      stock_after =
          subst (λ (o : Option ℤ). stock (take_seats r a w) ≡ some (or_zero o +ℤ (pos 0 -ℤ need a)))
            e (take_seats-available r numbers a w positive);
      held_after = take_seats-held r numbers a w positive;
      limit_after = take_seats-limit r numbers a w positive;
    })
    hold_free-IsDecided n e enough within (some s) f =
        let (inside, taken) = first_taken-some r hashes a.seat_keys s w f in
        refused (not_free s inside taken) refl

    hold_counted-IsDecided : (o : Option ℤ) → stock w ≡ o → Holds w (hold_counted r a w o)
    unfolding hold_counted
    hold_counted-IsDecided none e = refused (unknown e) refl
    hold_counted-IsDecided (some n) e = elim (Bool-cases (ltb_ℤ n (need a))) [
      | inl few ↦ rw few (refused (too_few n e few) refl)
      | inr enough ↦
          rw enough (elim (Bool-cases (ltb_ℤ a.max_per_user (taken_by_user w +ℤ need a))) [
            | inl more ↦ rw more (refused (over_limit more) refl)
            | inr within ↦
                rw within (hold_free-IsDecided n e enough within (first_taken r a.seat_keys w) refl)
          ])
    ]

    -- A hold with a positive lifetime is granted, with its id and the number of seats, exactly if
    -- the inventory counts enough, the limit of the user allows them and each seat is available:
    -- then the seats are held for the user, the fields of other seats are as they were, and the
    -- counters have moved by the number of seats. Otherwise the reply says which of these failed,
    -- and nothing is written.
    pub hold_script-IsDecided : IsDecided w (hold_script r a w).0 (hold_script r a w).1
    unfolding hold_script
    hold_script-IsDecided = hold_counted-IsDecided (stock w) refl

-- ===== src/Stock/Counted.antt =====
-- The counters after redis/lua/hold.lua.
use crowdtic.Base.{
  ◌*◌, ◌<◌, ◌≡◌, refl, ◌∙◌, ap, true, false, some, Option, String, List, [], ◌∷◌, arith, eq_iff,
}
use crowdtic.Base.Int.{ℤ, pos, ◌+ℤ◌, ◌-ℤ◌, or_zero}
use crowdtic.Stock.Calls.{
  Calls, NumberLaws, Key, inventory, seat, user_limit, Counter, counter_eq, available, held,
}
use crowdtic.Stock.Hold.{HoldArgs, mark_held, need, take_seats}

module _ {W : Type 0} (r : Calls W) (numbers : NumberLaws r) where
  open numbers use {
    number-hmset, number-hincrby, number-incrby, number-expire, number-pexpire, limit-hmset,
    limit-hincrby, limit-incrby, limit-expire, limit-pexpire,
  }

  -- A counter after it, or another of the same hash, has been moved.
  pub hincrby-same :
      (i : String) (c : Counter) (n : ℤ) (w : W)
      → counter_eq c c ≡ true
      → r.hget_number (inventory i) c (r.hincrby (inventory i) c n w)
        ≡ some (or_zero (r.hget_number (inventory i) c w) +ℤ n)
  hincrby-same i c n w h =
      number-hincrby (inventory i) (inventory i) c n c w ∙ rw ((eq_iff i i).1 refl, h) refl

  pub hincrby-other :
      (i : String) (c d : Counter) (n : ℤ) (w : W)
      → counter_eq d c ≡ false
      → r.hget_number (inventory i) c (r.hincrby (inventory i) d n w)
        ≡ r.hget_number (inventory i) c w
  hincrby-other i c d n w h =
      number-hincrby (inventory i) (inventory i) d n c w ∙ rw ((eq_iff i i).1 refl, h) refl

  pub incrby-same :
      (e u : String) (n : ℤ) (w : W)
      → r.get_number (user_limit e u) (r.incrby (user_limit e u) n w)
        ≡ some (or_zero (r.get_number (user_limit e u) w) +ℤ n)
  incrby-same e u n w =
      limit-incrby (user_limit e u) (user_limit e u) n w
      ∙ rw ((eq_iff e e).1 refl, (eq_iff u u).1 refl) refl

  mark_held-number :
      (a : HoldArgs) (ss : List String) (k : Key) (c : Counter) (w : W)
      → 0 < a.ttl
      → r.hget_number k c (mark_held r a ss w) ≡ r.hget_number k c w
  unfolding mark_held
  mark_held-number a [] k c w h = refl
  mark_held-number a (s ∷ ss) k c w h =
      mark_held-number a ss k c _ h
      ∙ number-pexpire (seat s) k (a.ttl * 1000) c _ (omega arith)
      ∙ number-hmset (seat s) k _ c w

  mark_held-limit :
      (a : HoldArgs) (ss : List String) (e u : String) (w : W)
      → 0 < a.ttl
      → r.get_number (user_limit e u) (mark_held r a ss w) ≡ r.get_number (user_limit e u) w
  unfolding mark_held
  mark_held-limit a [] e u w h = refl
  mark_held-limit a (s ∷ ss) e u w h =
      mark_held-limit a ss e u _ h
      ∙ limit-pexpire (seat s) (user_limit e u) (a.ttl * 1000) _ (omega arith)
      ∙ limit-hmset (seat s) (user_limit e u) _ w refl

  -- The three writes to counters of `take_seats`.
  pub take_seats-number :
      (a : HoldArgs) (i : String) (c : Counter) (w : W)
      → 0 < a.ttl
      → r.hget_number (inventory i) c (take_seats r a w)
        ≡ r.hget_number (inventory i) c (
            r.hincrby (inventory a.inv_key) held (need a) (
              r.hincrby
                (inventory a.inv_key)
                available
                (pos 0 -ℤ need a)
                (mark_held r a a.seat_keys w)))
  unfolding take_seats
  take_seats-number a i c w h =
      number-expire _ (inventory i) a.ttl c _ h
      ∙ number-hmset _ (inventory i) _ c _
      ∙ number-expire _ (inventory i) 86400 c _ (omega arith)
      ∙ number-incrby _ (inventory i) _ c _

  pub take_seats-available :
      (a : HoldArgs) (w : W)
      → 0 < a.ttl
      → r.hget_number (inventory a.inv_key) available (take_seats r a w)
        ≡ some (or_zero (r.hget_number (inventory a.inv_key) available w) +ℤ (pos 0 -ℤ need a))
  take_seats-available a w h =
      take_seats-number a a.inv_key available w h
      ∙ hincrby-other a.inv_key available held _ _ refl
      ∙ hincrby-same a.inv_key available _ _ refl
      ∙ ap (λ (o : Option ℤ). some (or_zero o +ℤ (pos 0 -ℤ need a)))
          (mark_held-number a a.seat_keys _ available w h)

  pub take_seats-held :
      (a : HoldArgs) (w : W)
      → 0 < a.ttl
      → r.hget_number (inventory a.inv_key) held (take_seats r a w)
        ≡ some (or_zero (r.hget_number (inventory a.inv_key) held w) +ℤ need a)
  take_seats-held a w h =
      take_seats-number a a.inv_key held w h
      ∙ hincrby-same a.inv_key held _ _ refl
      ∙ ap (λ (o : Option ℤ). some (or_zero o +ℤ need a))
          (hincrby-other a.inv_key held available _ _ refl
            ∙ mark_held-number a a.seat_keys _ held w h)

  pub take_seats-limit :
      (a : HoldArgs) (w : W)
      → 0 < a.ttl
      → r.get_number (user_limit a.event a.user) (take_seats r a w)
        ≡ some (or_zero (r.get_number (user_limit a.event a.user) w) +ℤ need a)
  unfolding take_seats
  take_seats-limit a w h =
      let k : Key = user_limit a.event a.user in
      limit-expire _ k a.ttl _ h
      ∙ limit-hmset _ k _ _ refl
      ∙ limit-expire _ k 86400 _ (omega arith)
      ∙ incrby-same a.event a.user (need a) _
      ∙ ap (λ (o : Option ℤ). some (or_zero o +ℤ need a))
          (limit-hincrby _ k _ _ _ refl
            ∙ limit-hincrby _ k _ _ _ refl
            ∙ mark_held-limit a a.seat_keys a.event a.user w h)

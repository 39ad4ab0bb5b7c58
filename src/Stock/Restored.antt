-- ===== src/Stock/Restored.antt =====
-- A release right after a hold takes it back.
use crowdtic.Base.{
  ◌<◌, ◌≡◌, refl, sym, ◌∙◌, ap, inl, inr, String, true, false, Bool-cases, Option, some, List, [],
  ◌∷◌, length, eq_iff,
}
use crowdtic.Base.Int.{ℤ, pos, ◌+ℤ◌, ◌-ℤ◌, or_zero, sub-add, add-sub}
use crowdtic.Stock.Calls.{
  Calls, HashLaws, NumberLaws, Key, inventory, seat, user_limit, hold_key, Field, hold_id, Counter,
  available, held, given, over,
}
use crowdtic.Stock.Hold.{HoldArgs, HoldReply, is, held_fields, need, hold_script}
use crowdtic.Stock.Release.{ReleaseArgs, free_one, free_seats, release_script}
use crowdtic.Stock.Granted.{is_in}
use crowdtic.Stock.Counted.{hincrby-same, hincrby-other, incrby-same}
use crowdtic.Stock.Decided.{
  stock, taken_by_user, IsGranted, IsDecided, granted, refused, unknown, too_few, over_limit,
  not_free, hold_script-IsDecided,
}
use crowdtic.Stock.Freed.{freed, free_seats-freed, free_seats-outside, release_script-hget}
use crowdtic.Stock.Lost.{is_grant}

-- The release of a hold.
abbrev pub release_of : HoldArgs → ReleaseArgs
release_of a = record {
  inv_key = a.inv_key;
  seat_keys = a.seat_keys;
  hold = a.hold;
  user = a.user;
  event = a.event;
}

module _ {W : Type 0} (r : Calls W) (hashes : HashLaws r) (numbers : NumberLaws r) where
  open numbers use {
    number-hmset, number-hdel, number-hincrby, number-incrby, number-persist, number-del,
    limit-hmset, limit-hdel, limit-hincrby, limit-incrby, limit-persist, limit-del,
  }

  free_one-number :
      (hold s : String) (k : Key) (c : Counter) (w : W)
      → r.hget_number k c (free_one r hold s w) ≡ r.hget_number k c w
  unfolding free_one
  free_one-number hold s k c w = elim (Bool-cases (is (r.hget (seat s) hold_id w) hold)) [
    | inl e ↦ rw e (number-persist (seat s) k c _ ∙ number-hdel _ k _ c _ ∙ number-hmset _ k _ c w)
    | inr e ↦ rw e refl
  ]

  free_seats-number :
      (hold : String) (ss : List String) (k : Key) (c : Counter) (w : W)
      → r.hget_number k c (free_seats r hold ss w) ≡ r.hget_number k c w
  unfolding free_seats
  free_seats-number hold [] k c w = refl
  free_seats-number hold (s ∷ ss) k c w =
      free_seats-number hold ss k c (free_one r hold s w) ∙ free_one-number hold s k c w

  free_one-limit :
      (hold s e u : String) (w : W)
      → r.get_number (user_limit e u) (free_one r hold s w) ≡ r.get_number (user_limit e u) w
  unfolding free_one
  free_one-limit hold s e u w = elim (Bool-cases (is (r.hget (seat s) hold_id w) hold)) [
    | inl h ↦ rw h (
        limit-persist (seat s) (user_limit e u) _
        ∙ limit-hdel _ (user_limit e u) _ _
        ∙ limit-hmset _ (user_limit e u) _ w refl)
    | inr h ↦ rw h refl
  ]

  free_seats-limit :
      (hold : String) (ss : List String) (e u : String) (w : W)
      → r.get_number (user_limit e u) (free_seats r hold ss w) ≡ r.get_number (user_limit e u) w
  unfolding free_seats
  free_seats-limit hold [] e u w = refl
  free_seats-limit hold (s ∷ ss) e u w =
      free_seats-limit hold ss e u (free_one r hold s w) ∙ free_one-limit hold s e u w

  module _ (b : ReleaseArgs) (w : W) where
    abbrev count : ℤ
    count = pos (length b.seat_keys)

    abbrev end : W
    end = (release_script r b w).1

    released-available :
        r.hget_number (inventory b.inv_key) available end
        ≡ some (or_zero (r.hget_number (inventory b.inv_key) available w) +ℤ count)
    unfolding release_script
    released-available =
        number-del (hold_key b.event b.hold) (inventory b.inv_key) available _
        ∙ number-incrby _ (inventory b.inv_key) _ available _
        ∙ hincrby-other r numbers b.inv_key available held _ _ refl
        ∙ hincrby-same r numbers b.inv_key available _ _ refl
        ∙ ap (λ (o : Option ℤ). some (or_zero o +ℤ count))
            (free_seats-number b.hold b.seat_keys (inventory b.inv_key) available w)

    released-held :
        r.hget_number (inventory b.inv_key) held end
        ≡ some (or_zero (r.hget_number (inventory b.inv_key) held w) +ℤ (pos 0 -ℤ count))
    unfolding release_script
    released-held =
        number-del (hold_key b.event b.hold) (inventory b.inv_key) held _
        ∙ number-incrby _ (inventory b.inv_key) _ held _
        ∙ hincrby-same r numbers b.inv_key held _ _ refl
        ∙ ap (λ (o : Option ℤ). some (or_zero o +ℤ (pos 0 -ℤ count)))
            (hincrby-other r numbers b.inv_key held available _ _ refl
              ∙ free_seats-number b.hold b.seat_keys (inventory b.inv_key) held w)

    released-limit :
        r.get_number (user_limit b.event b.user) end
        ≡ some (or_zero (r.get_number (user_limit b.event b.user) w) +ℤ (pos 0 -ℤ count))
    unfolding release_script
    released-limit =
        limit-del (hold_key b.event b.hold) (user_limit b.event b.user) _
        ∙ incrby-same r numbers b.event b.user _ _
        ∙ ap (λ (o : Option ℤ). some (or_zero o +ℤ (pos 0 -ℤ count)))
            (limit-hincrby _ (user_limit b.event b.user) _ _ _ refl
              ∙ limit-hincrby _ (user_limit b.event b.user) _ _ _ refl
              ∙ free_seats-limit b.hold b.seat_keys b.event b.user w)

  -- What is left of a hold after its release.
  pub record IsRestored (a : HoldArgs) (w w' : W) : Type 0 where
    pub freed_seats :
        (j : String) (g : Field)
        → is_in j a.seat_keys ≡ true
        → r.hget (seat j) g w' ≡ freed g (over (given g (held_fields a)) (r.hget (seat j) g w))
    pub other_seats :
        (j : String) (g : Field)
        → is_in j a.seat_keys ≡ false
        → r.hget (seat j) g w' ≡ r.hget (seat j) g w
    pub stock_back : stock r hashes numbers a w' ≡ stock r hashes numbers a w
    pub held_back :
        r.hget_number (inventory a.inv_key) held w'
        ≡ some (or_zero (r.hget_number (inventory a.inv_key) held w))
    pub limit_back :
        r.get_number (user_limit a.event a.user) w' ≡ some (taken_by_user r hashes numbers a w)

  restored :
      (a : HoldArgs) (w w' : W)
      → IsGranted r hashes numbers a w w'
      → IsRestored a w (release_script r (release_of a) w').1
  restored a w w' t =
      let b = release_of a in
      let mine : (j : String)
          → is_in j a.seat_keys ≡ true
          → is (r.hget (seat j) hold_id w') a.hold ≡ true =
        λ j e. rw (t.seats_held j hold_id, e) ((eq_iff a.hold a.hold).1 refl) in
      record {
        freed_seats = λ j g e.
            release_script-hget r hashes b j g w'
            ∙ free_seats-freed r hashes a.hold a.seat_keys j g w' e (mine j e)
            ∙ ap (freed g) (t.seats_held j g ∙ rw e refl);
        other_seats = λ j g e.
            release_script-hget r hashes b j g w'
            ∙ free_seats-outside r hashes a.hold a.seat_keys j g w' e
            ∙ t.seats_held j g
            ∙ rw e refl;
        stock_back =
            released-available b w'
            ∙ ap (λ (o : Option ℤ). some (or_zero o +ℤ need a)) t.stock_after
            ∙ ap (λ (n : ℤ). some n) (sub-add t.count (need a))
            ∙ sym t.in_stock;
        held_back =
            released-held b w'
            ∙ ap (λ (o : Option ℤ). some (or_zero o +ℤ (pos 0 -ℤ need a))) t.held_after
            ∙ ap (λ (n : ℤ). some n) (add-sub _ (need a));
        limit_back =
            released-limit b w'
            ∙ ap (λ (o : Option ℤ). some (or_zero o +ℤ (pos 0 -ℤ need a))) t.limit_after
            ∙ ap (λ (n : ℤ). some n) (add-sub _ (need a));
      }

  -- A release right after a granted hold makes the seats of the hold available and nobody's, leaves
  -- every other seat as it was before the hold, and sets the stock, the held seats and the count of
  -- the user back to what they were, where a missing count is 0 from then on.
  pub release_script-hold_script :
      (a : HoldArgs) (w : W)
      → 0 < a.ttl
      → is_grant (hold_script r a w).0 ≡ true
      → IsRestored a w (release_script r (release_of a) (hold_script r a w).1).1
  release_script-hold_script a w h grant = go (hold_script-IsDecided r hashes numbers a h w) grant
    where
      go :
          {reply : HoldReply} {w' : W}
          → IsDecided r hashes numbers a w reply w'
          → is_grant reply ≡ true
          → IsRestored a w (release_script r (release_of a) w').1
      go (granted t) e = restored a w _ t
      go (refused (unknown f) g) e = cc
      go (refused (too_few n f g) h) e = cc
      go (refused (over_limit f) g) e = cc
      go (refused (not_free s f g) h) e = cc

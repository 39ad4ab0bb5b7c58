-- ===== src/Stock/Committed.antt =====
-- The three ways in which redis/lua/commit.lua ends.
use crowdtic.Base.{
  ℕ, suc, ◌≡◌, refl, subst, arith, inl, inr, String, Bool, true, false, not, ◌&&◌, ◌==◌, Bool-cases,
  Option, none, some, List, [], ◌∷◌, length, is_empty, get_or, if◌then◌else◌,
}
use crowdtic.Env.{is_set}
use crowdtic.Stock.Calls.{Calls, seat, status, hold_id, held_by, inventory, hold_key}
use crowdtic.Stock.Hold.{is}
use crowdtic.Stock.Commit.{
  CommitArgs, CommitReply, ok_sold, hold_mismatch, user_mismatch, Checked, fine, failed, Buyer,
  not_held, check_seats, remember, sell, after_check, commit_new, replayed, order_of, commit_for,
  commit_script,
}

abbrev pub is_sale : CommitReply → Bool
is_sale (ok_sold h n o) = true
is_sale _ = false

-- An error of the validation is no sale.
data NoSale : Checked → Type 0 where
  passed : (n : ℕ) → NoSale (fine n)
  error : (e : CommitReply) → is_sale e ≡ false → NoSale (failed e)

error_of : (e : CommitReply) → NoSale (failed e) → is_sale e ≡ false
error_of e (error _ h) = h

if-NoSale : (c : Bool) {x y : Checked} → NoSale x → NoSale y → NoSale (if c then x else y)
if-NoSale true x y = x
if-NoSale false x y = y

module _ {W : Type 0} (r : Calls W) (a : CommitArgs) where
  abbrev pub buyer : Buyer
  buyer = record { hold = get_or a.hold ""; user = get_or a.user ""; event = get_or a.event "" }

  pub data IsCommit (w : W) : CommitReply → W → Type 0 where
    unchanged : {reply : CommitReply} → is_sale reply ≡ false → IsCommit w reply w
    replay :
        {reply : CommitReply}
        → is_sale reply ≡ false
        → IsCommit w reply (remember r buyer a.order w)
    sale :
        (known : Bool) (m : ℕ)
        → check_seats r buyer known a.seat_keys 0 w ≡ fine m
        → IsCommit w (sell r a buyer w).0 (sell r a buyer w).1

  abbrev Ends : W → CommitReply × W → Type 0
  Ends w (reply, w') = IsCommit w reply w'

  not_held-is_sale :
      (known : Bool) (n : ℕ) (s : String) (st : Option String)
      → is_sale (not_held known n s st) ≡ false
  not_held-is_sale known n s st = elim (Bool-cases (not known && n == 0)) [
    | inl e ↦ rw e refl
    | inr e ↦ rw e refl
  ]

  check_seats-NoSale :
      (b : Buyer) (known : Bool) (ss : List String) (n : ℕ) (w : W)
      → NoSale (check_seats r b known ss n w)
  unfolding check_seats
  check_seats-NoSale b known [] n w = passed n
  check_seats-NoSale b known (s ∷ ss) n w =
      let st = r.hget (seat s) status w in
      let of_hold = is (r.hget (seat s) hold_id w) b.hold in
      let of_user = is (r.hget (seat s) held_by w) b.user in
      let rest = check_seats-NoSale b known ss (if is st "SOLD" then suc n else n) w in
      if-NoSale (is st "SOLD") (if-NoSale (of_hold && of_user) rest (error _ refl)) (
        if-NoSale (not (is st "HELD")) (error _ (not_held-is_sale known n s st)) (
          if-NoSale (not of_hold) (error (hold_mismatch s) refl)
            (if-NoSale (not of_user) (error (user_mismatch s) refl) rest)))

  replayed-is_sale :
      (b : Buyer) (o : Option String) (w : W) {e : CommitReply}
      → replayed r b o w ≡ some e
      → is_sale e ≡ false
  unfolding replayed
  replayed-is_sale b none w h = cc
  replayed-is_sale b (some order) w h = ground arith

  after_check-Ends :
      (known : Bool) (w : W) (o : Checked)
      → check_seats r buyer known a.seat_keys 0 w ≡ o
      → Ends w (after_check r a buyer w o)
  unfolding after_check
  after_check-Ends known w (failed e) h =
      unchanged (error_of e (subst NoSale h (check_seats-NoSale buyer known a.seat_keys 0 w)))
  after_check-Ends known w (fine m) h = elim (Bool-cases (m == length a.seat_keys)) [
    | inl all ↦ rw all (replay refl)
    | inr more ↦ rw more (sale known m h)
  ]

  commit_new-Ends :
      (w : W) (o : Option CommitReply)
      → replayed r buyer (order_of a) w ≡ o
      → Ends w (commit_new r a buyer w o)
  unfolding commit_new
  commit_new-Ends w (some e) h = unchanged (replayed-is_sale buyer (order_of a) w h)
  commit_new-Ends w none h =
      after_check-Ends (r.exists (hold_key buyer.event buyer.hold) w) w _ refl

  commit_for-Ends : (w : W) → Ends w (commit_for r a buyer w)
  unfolding commit_for
  commit_for-Ends w = elim (Bool-cases (is_empty a.seat_keys)) [
    | inl e ↦ rw e (unchanged refl)
    | inr e ↦ rw e (elim (Bool-cases (r.exists (inventory a.inv_key) w)) [
      | inl f ↦ rw f (commit_new-Ends w _ refl)
      | inr f ↦ rw f (unchanged refl)
    ])
  ]

  pub commit_script-IsCommit : (w : W) → IsCommit w (commit_script r a w).0 (commit_script r a w).1
  unfolding commit_script
  commit_script-IsCommit w = elim (Bool-cases (is_set a.hold)) [
    | inr e ↦ rw e (unchanged refl)
    | inl e ↦ rw e (elim (Bool-cases (is_set a.user)) [
      | inr f ↦ rw f (unchanged refl)
      | inl f ↦ rw f (elim (Bool-cases (is_set a.event)) [
        | inr g ↦ rw g (unchanged refl)
        | inl g ↦ rw g (commit_for-Ends w)
      ])
    ])
  ]

-- ===== src/Stock/Once.antt =====
-- No seat is sold twice: scripts in any order, of any users, after a sale.
use crowdtic.Base.{
  ◌<◌, ◌≡◌, ◌≢◌, ◌⊎◌, inl, inr, refl, sym, subst, ◌∙◌, ap, String, str_eq, Bool, true, false,
  Bool-cases, Option, none, some, List, [], ◌∷◌, All, get_or, eq_iff,
}
use crowdtic.Stock.Calls.{Calls, HashLaws, NumberLaws, seat, Field, status, held_by, hold_id}
use crowdtic.Stock.Hold.{HoldArgs, HoldReply, is, hold_script}
use crowdtic.Stock.Commit.{CommitArgs, CommitReply, sell_seats, stamp, commit_script}
use crowdtic.Stock.Release.{ReleaseArgs, release_script}
use crowdtic.Stock.Granted.{is_in, IsFree}
use crowdtic.Stock.Decided.{IsDecided, granted, refused, hold_script-IsDecided}
use crowdtic.Stock.Sold.{
  Keeps, after_sale, sell_seats-status, sell_seats-hold_id, sell_seats-held_by, remember-hget,
  sell-hget,
}
use crowdtic.Stock.Buyers.{IsOf, check_seats-IsOf}
use crowdtic.Stock.Committed.{
  is_sale, buyer, IsCommit, unchanged, replay, sale, commit_script-IsCommit,
}
use crowdtic.Stock.Freed.{free_seats-kept, release_script-hget}

module _ {W : Type 0} (r : Calls W) (hashes : HashLaws r) (numbers : NumberLaws r) where
  -- The seat is sold to the user, under the hold.
  pub record IsSoldTo (hold user : String) (s : String) (w : W) : Type 0 where
    pub is_sold : r.hget (seat s) status w ≡ some "SOLD"
    pub by_hold : r.hget (seat s) hold_id w ≡ some hold
    pub by_user : r.hget (seat s) held_by w ≡ some user

  -- Between the scripts keys may end, those of seats that are sold excepted, since they have no
  -- lifetime; a seat that ends loses all its fields.
  abbrev pub IsLapse : W → W → Type 0
  IsLapse w w' =
      (j : String)
      → ((g : Field) → r.hget (seat j) g w' ≡ r.hget (seat j) g w)
        ⊎ (((g : Field) → r.hget (seat j) g w' ≡ none) × (r.hget (seat j) status w ≢ some "SOLD"))

  -- Holds, commits, releases of the holds that `Released` allows, and ends of keys.
  pub data Steps (Released : String → Type 0) (start : W) : W → Type 0 where
    here : Steps Released start start
    then_hold :
        (a : HoldArgs) {w : W}
        → 0 < a.ttl
        → Steps Released start w
        → Steps Released start (hold_script r a w).1
    then_commit :
        (a : CommitArgs) {w : W}
        → Steps Released start w
        → Steps Released start (commit_script r a w).1
    then_release :
        (a : ReleaseArgs) {w : W}
        → Released a.hold
        → Steps Released start w
        → Steps Released start (release_script r a w).1
    then_lapse : {w w' : W} → IsLapse w w' → Steps Released start w → Steps Released start w'

  pub All-is_in :
      (P : String → Type 0) (ss : List String) (s : String) → All P ss → is_in s ss ≡ true → P s
  All-is_in P [] s all inside = cc
  All-is_in P (t ∷ ss) s all inside = elim (Bool-cases (str_eq t s)) [
    | inl same ↦ subst P ((eq_iff t s).0 same) all.0
    | inr other ↦ All-is_in P ss s all.1 (rw other at inside)
  ]

  -- Any field of a seat that is not available is left alone by a hold.
  pub hold_script-kept :
      (a : HoldArgs) (s : String) (g : Field) (w : W)
      → 0 < a.ttl
      → r.hget (seat s) status w ≢ some "AVAILABLE"
      → r.hget (seat s) g (hold_script r a w).1 ≡ r.hget (seat s) g w
  hold_script-kept a s g w h taken = go (hold_script-IsDecided r hashes numbers a h w)
    where
      go :
          {reply : HoldReply} {w' : W}
          → IsDecided r hashes numbers a w reply w'
          → r.hget (seat s) g w' ≡ r.hget (seat s) g w
      go (refused why e) = ap (r.hget (seat s) g) e
      go (granted t) = elim (Bool-cases (is_in s a.seat_keys)) [
        | inl inside ↦ absurd (taken (All-is_in (IsFree r hashes w) a.seat_keys s t.free inside))
        | inr outside ↦ t.seats_held s g ∙ rw outside refl
      ]

  -- A commit never changes who holds a seat, and its status only if that is `HELD`.
  pub commit_script-kept :
      (a : CommitArgs) (g : Field) (w : W)
      → ((user ts : String) → Keeps r hashes g w (sell_seats r user ts a.seat_keys w))
      → Keeps r hashes g w (commit_script r a w).1
  commit_script-kept a g w loop j = go (commit_script-IsCommit r a w)
    where
      go :
          {reply : CommitReply} {w' : W}
          → IsCommit r a w reply w'
          → r.hget (seat j) g w' ≡ r.hget (seat j) g w
      go (unchanged e) = refl
      go (replay e) = remember-hget r hashes (buyer r a) a.order g w j
      go (sale known m e) =
          sell-hget r hashes a (buyer r a) g w j ∙ loop (buyer r a).user (stamp r a.sold_at_ms w) j

  after_sale-other :
      (b : Bool) (o : Option String) → is o "HELD" ≡ false → after_sale r hashes b o ≡ o
  after_sale-other true o h = rw h refl
  after_sale-other false o h = refl

  pub commit_script-status :
      (a : CommitArgs) (j : String) (w : W)
      → is (r.hget (seat j) status w) "HELD" ≡ false
      → r.hget (seat j) status (commit_script r a w).1 ≡ r.hget (seat j) status w
  commit_script-status a j w h = go (commit_script-IsCommit r a w)
    where
      go :
          {reply : CommitReply} {w' : W}
          → IsCommit r a w reply w'
          → r.hget (seat j) status w' ≡ r.hget (seat j) status w
      go (unchanged e) = refl
      go (replay e) = remember-hget r hashes (buyer r a) a.order status w j
      go (sale known m e) =
          sell-hget r hashes a (buyer r a) status w j
          ∙ sell_seats-status r hashes (buyer r a).user (stamp r a.sold_at_ms w) a.seat_keys j w
          ∙ after_sale-other (is_in j a.seat_keys) _ h

  -- Three fields that are kept keep the sale.
  IsSoldTo-kept :
      {hold user s : String} {w w' : W}
      → r.hget (seat s) status w' ≡ r.hget (seat s) status w
      → r.hget (seat s) hold_id w' ≡ r.hget (seat s) hold_id w
      → r.hget (seat s) held_by w' ≡ r.hget (seat s) held_by w
      → IsSoldTo hold user s w
      → IsSoldTo hold user s w'
  IsSoldTo-kept e f g sold = record {
    is_sold = e ∙ sold.is_sold;
    by_hold = f ∙ sold.by_hold;
    by_user = g ∙ sold.by_user;
  }

  is-other : (o : Option String) (s t : String) → o ≡ some s → str_eq s t ≡ false → is o t ≡ false
  is-other o s t e h = rw e h

  pub release_script-kept :
      (a : ReleaseArgs) (s : String) (g : Field) (w : W)
      → is (r.hget (seat s) hold_id w) a.hold ≡ false
      → r.hget (seat s) g (release_script r a w).1 ≡ r.hget (seat s) g w
  release_script-kept a s g w h =
      release_script-hget r hashes a s g w ∙ free_seats-kept r hashes a.hold a.seat_keys s g w h

  sold-ne-available : (o : Option String) → o ≡ some "SOLD" → o ≢ some "AVAILABLE"
  sold-ne-available o e f =
      let clash : false ≡ true = ap (λ (x : Option String). is x "AVAILABLE") (sym e ∙ f) in
      cc clash

  -- A sale lasts as long as its own hold is not released.
  pub Steps-IsSoldTo :
      (hold user s : String) (start : W) {w : W}
      → IsSoldTo hold user s start
      → Steps (λ (h : String). str_eq hold h ≡ false) start w
      → IsSoldTo hold user s w
  Steps-IsSoldTo hold user s start sold here = sold
  Steps-IsSoldTo hold user s start sold (then_hold a h run) =
      let before = Steps-IsSoldTo hold user s start sold run in
      let kept = λ (g : Field). hold_script-kept a s g _ h (sold-ne-available _ before.is_sold) in
      IsSoldTo-kept (kept status) (kept hold_id) (kept held_by) before
  Steps-IsSoldTo hold user s start sold (then_commit a run) =
      let before = Steps-IsSoldTo hold user s start sold run in
      IsSoldTo-kept (commit_script-status a s _ (is-other _ "SOLD" "HELD" before.is_sold refl))
        (commit_script-kept a hold_id _ (λ u t. sell_seats-hold_id r hashes u t a.seat_keys _) s)
        (commit_script-kept a held_by _ (λ u t. sell_seats-held_by r hashes u t a.seat_keys _) s)
        before
  Steps-IsSoldTo hold user s start sold (then_release a other run) =
      let before = Steps-IsSoldTo hold user s start sold run in
      let kept =
        λ (g : Field). release_script-kept a s g _ (is-other _ hold a.hold before.by_hold other) in
      IsSoldTo-kept (kept status) (kept hold_id) (kept held_by) before
  Steps-IsSoldTo hold user s start sold (then_lapse ends run) =
      let before = Steps-IsSoldTo hold user s start sold run in
      elim (ends s) [
        | inl kept ↦ IsSoldTo-kept (kept status) (kept hold_id) (kept held_by) before
        | inr gone ↦ absurd (gone.1 before.is_sold)
      ]

  after_sale-sold :
      (o : Option String)
      → (o ≡ some "HELD") ⊎ (o ≡ some "SOLD")
      → after_sale r hashes true o ≡ some "SOLD"
  after_sale-sold o (inl e) = rw e refl
  after_sale-sold o (inr e) = rw e refl

  -- After a commit that sells, each of its seats is sold to its user under its hold.
  pub commit_script-sells :
      (a : CommitArgs) (s : String) (w : W)
      → is_sale (commit_script r a w).0 ≡ true
      → is_in s a.seat_keys ≡ true
      → IsSoldTo (buyer r a).hold (buyer r a).user s (commit_script r a w).1
        × IsOf r (buyer r a).hold (buyer r a).user w s
  commit_script-sells a s w h inside = go (commit_script-IsCommit r a w) h
    where
      go :
          {reply : CommitReply} {w' : W}
          → IsCommit r a w reply w'
          → is_sale reply ≡ true
          → IsSoldTo (buyer r a).hold (buyer r a).user s w'
            × IsOf r (buyer r a).hold (buyer r a).user w s
      go (unchanged e) f = cc
      go (replay e) f = cc
      go (sale known m e) f =
          let b = buyer r a in
          let ts = stamp r a.sold_at_ms w in
          let of =
            All-is_in (IsOf r b.hold b.user w) a.seat_keys s
              (check_seats-IsOf r b known a.seat_keys 0 m w e) inside in
          (
            record {
              is_sold =
                  sell-hget r hashes a b status w s
                  ∙ sell_seats-status r hashes b.user ts a.seat_keys s w
                  ∙ rw inside (after_sale-sold _ of.live);
              by_hold =
                  sell-hget r hashes a b hold_id w s
                  ∙ sell_seats-hold_id r hashes b.user ts a.seat_keys w s
                  ∙ of.by_hold;
              by_user =
                  sell-hget r hashes a b held_by w s
                  ∙ sell_seats-held_by r hashes b.user ts a.seat_keys w s
                  ∙ of.by_user;
            },
            of,
          )

  -- If a commit sells a seat, and after any holds, commits, ends of keys without a sale, and
  -- releases of other holds, in any order, another commit sells that seat too, then it is of the
  -- same hold and the same user.
  pub commit_script-once :
      (a b : CommitArgs) (s : String) (w : W) {v : W}
      → is_sale (commit_script r a w).0 ≡ true
      → is_in s a.seat_keys ≡ true
      → Steps (λ (h : String). str_eq (get_or a.hold "") h ≡ false) (commit_script r a w).1 v
      → is_sale (commit_script r b v).0 ≡ true
      → is_in s b.seat_keys ≡ true
      → (get_or b.hold "" ≡ get_or a.hold "") × (get_or b.user "" ≡ get_or a.user "")
  commit_script-once a b s w {v} first in_a run second in_b =
      let sold = (commit_script-sells a s w first in_a).0 in
      let still = Steps-IsSoldTo (get_or a.hold "") (get_or a.user "") s _ sold run in
      let of = (commit_script-sells b s v second in_b).1 in
      (cc (still.by_hold, of.by_hold), cc (still.by_user, of.by_user))

-- ===== src/Stock/Lost.antt =====
-- Two ways in which redis/lua/release.lua does not bring back what it should: a seat whose key has
-- ended stays lost, and a seat that is sold becomes available.
use crowdtic.Base.{
  ◌<◌, ◌≡◌, ◌≢◌, inl, inr, refl, ◌∙◌, String, Bool, true, false, Option, none, some, get_or, eq_iff,
}
use crowdtic.Stock.Calls.{Calls, HashLaws, NumberLaws, seat, Field, status, hold_id}
use crowdtic.Stock.Hold.{HoldArgs, HoldReply, ok_held, is, hold_script}
use crowdtic.Stock.Commit.{CommitArgs, commit_script}
use crowdtic.Stock.Release.{ReleaseArgs, release_script}
use crowdtic.Stock.Granted.{is_in, IsFree}
use crowdtic.Stock.Decided.{
  IsDecided, granted, refused, IsRefused, unknown, too_few, over_limit, not_free,
  hold_script-IsDecided,
}
use crowdtic.Stock.Sold.{sell_seats-hold_id}
use crowdtic.Stock.Committed.{is_sale}
use crowdtic.Stock.Freed.{free_seats-freed, release_script-hget}
use crowdtic.Stock.Once.{
  Steps, here, then_hold, then_commit, then_release, then_lapse, hold_script-kept,
  commit_script-kept, commit_script-status, release_script-kept, commit_script-sells, All-is_in,
}

abbrev pub is_grant : HoldReply → Bool
is_grant (ok_held h n) = true
is_grant _ = false

none-ne-some : (o : Option String) (s : String) → o ≡ none → o ≢ some s
none-ne-some o s e f = cc

module _ {W : Type 0} (r : Calls W) (hashes : HashLaws r) (numbers : NumberLaws r) where
  -- The key of the seat has ended.
  pub record IsGone (s : String) (w : W) : Type 0 where
    pub no_status : r.hget (seat s) status w ≡ none
    pub no_hold : r.hget (seat s) hold_id w ≡ none

  IsGone-kept :
      {s : String} {w w' : W}
      → r.hget (seat s) status w' ≡ r.hget (seat s) status w
      → r.hget (seat s) hold_id w' ≡ r.hget (seat s) hold_id w
      → IsGone s w
      → IsGone s w'
  IsGone-kept e f gone = record { no_status = e ∙ gone.no_status; no_hold = f ∙ gone.no_hold }

  is-none : (o : Option String) (s : String) → o ≡ none → is o s ≡ false
  is-none o s e = rw e refl

  Steps-IsGone :
      (s : String) (start : W) {w : W}
      → IsGone s start
      → Steps r hashes numbers (λ (h : String). Unit {0}) start w
      → IsGone s w
  Steps-IsGone s start gone here = gone
  Steps-IsGone s start gone (then_hold a h run) =
      let before = Steps-IsGone s start gone run in
      let kept = λ (g : Field).
        hold_script-kept r hashes numbers a s g _ h (none-ne-some _ "AVAILABLE" before.no_status) in
      IsGone-kept (kept status) (kept hold_id) before
  Steps-IsGone s start gone (then_commit a run) =
      let before = Steps-IsGone s start gone run in
      IsGone-kept (commit_script-status r hashes numbers a s _ (is-none _ "HELD" before.no_status))
        (commit_script-kept r hashes numbers a hold_id _
          (λ u t. sell_seats-hold_id r hashes u t a.seat_keys _) s)
        before
  Steps-IsGone s start gone (then_release a other run) =
      let before = Steps-IsGone s start gone run in
      let kept = λ (g : Field).
        release_script-kept r hashes numbers a s g _ (is-none _ a.hold before.no_hold) in
      IsGone-kept (kept status) (kept hold_id) before
  Steps-IsGone s start gone (then_lapse ends run) =
      let before = Steps-IsGone s start gone run in
      elim (ends s) [
        | inl kept ↦ IsGone-kept (kept status) (kept hold_id) before
        | inr ended ↦ record { no_status = ended.0 status; no_hold = ended.0 hold_id }
      ]

  -- Once the key of a seat has ended, as it does when its hold runs out, no holds, commits and
  -- releases, of any hold, bring the seat back: whatever they do, a hold that names it is refused.
  pub hold_script-lost :
      (a : HoldArgs) (s : String) (start : W) {w : W}
      → IsGone s start
      → Steps r hashes numbers (λ (h : String). Unit {0}) start w
      → 0 < a.ttl
      → is_in s a.seat_keys ≡ true
      → is_grant (hold_script r a w).0 ≡ false
  hold_script-lost a s start {w} gone run h inside =
      go (hold_script-IsDecided r hashes numbers a h w)
    where
      why : {reply : HoldReply} → IsRefused r hashes numbers a w reply → is_grant reply ≡ false
      why (unknown e) = refl
      why (too_few n e f) = refl
      why (over_limit e) = refl
      why (not_free t e f) = refl

      go :
          {reply : HoldReply} {w' : W}
          → IsDecided r hashes numbers a w reply w'
          → is_grant reply ≡ false
      go (refused reason e) = why reason
      go (granted t) = absurd (
          none-ne-some _ "AVAILABLE" (Steps-IsGone s start gone run).no_status
            (All-is_in r hashes numbers (IsFree r hashes w) a.seat_keys s t.free inside))

  -- A release under the hold of a sale, right after it, makes each seat of both available, and
  -- nobody's.
  pub release_script-commit_script :
      (a : CommitArgs) (b : ReleaseArgs) (s : String) (w : W)
      → is_sale (commit_script r a w).0 ≡ true
      → is_in s a.seat_keys ≡ true
      → is_in s b.seat_keys ≡ true
      → b.hold ≡ get_or a.hold ""
      → (r.hget (seat s) status (release_script r b (commit_script r a w).1).1 ≡ some "AVAILABLE")
        × (r.hget (seat s) hold_id (release_script r b (commit_script r a w).1).1 ≡ none)
  release_script-commit_script a b s w sells in_a in_b same =
      let sold = (commit_script-sells r hashes numbers a s w sells in_a).0 in
      let mine : is (r.hget (seat s) hold_id (commit_script r a w).1) b.hold ≡ true =
        rw (sold.by_hold, same) ((eq_iff _ _).1 refl) in
      let freed = λ (g : Field).
        release_script-hget r hashes b s g (commit_script r a w).1
        ∙ free_seats-freed r hashes b.hold b.seat_keys s g (commit_script r a w).1 in_b mine in
      (freed status, freed hold_id)

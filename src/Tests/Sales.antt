-- ===== src/Tests/Sales.antt =====
-- The theorems on the stock of seats, at two seats and two users.
use crowdtic.Base.{◌≡◌, refl, String, true, false, Option, none, some, List, [], ◌∷◌, arith}
use crowdtic.Base.Int.{pos, ◌+ℤ◌, ◌-ℤ◌}
use crowdtic.Stock.Calls.{Key, seat, status, hold_id, Field}
use crowdtic.Stock.Hold.{
  HoldArgs, hold_script, hold_counted, hold_free, first_taken, take_seats, mark_held,
}
use crowdtic.Stock.Commit.{
  CommitArgs, commit_script, commit_for, commit_new, after_check, sell, sell_seats, sell_one,
  take_off, remember, stamp, check_seats, replayed,
}
use crowdtic.Stock.Release.{ReleaseArgs, release_script}
use crowdtic.Stock.Decided.{IsDecided, hold_script-IsDecided}
use crowdtic.Stock.Once.{commit_script-once, here, then_hold, then_release}
use crowdtic.Stock.Lost.{is_grant, hold_script-lost, release_script-commit_script}
use crowdtic.Stock.Restored.{IsRestored, release_of, release_script-hold_script}
use crowdtic.Tests.Table.{Table, table, table_hashes, table_numbers}

abbrev seat_field : Field → Option String
seat_field status = some "AVAILABLE"
seat_field _ = none

abbrev fields : Key → Field → Option String
fields (seat s) f = seat_field f
fields _ f = none

-- Every seat is available, and a hundred are in stock.
abbrev opening : Table
opening = record {
  field = fields;
  number = λ k c. some (pos 100);
  text = λ k. none;
  limit = λ k. none;
}

abbrev hold_by : String → String → List String → HoldArgs
hold_by user hold seats = record {
  inv_key = "inventory:{e}:vip";
  seat_keys = seats;
  user = user;
  hold = hold;
  ttl = 600;
  expires_at_ms = "1700000600000";
  max_per_user = pos 4;
  event = "e";
}

abbrev commit_by : String → String → List String → CommitArgs
commit_by user hold seats = record {
  inv_key = "inventory:{e}:vip";
  seat_keys = seats;
  hold = some hold;
  user = some user;
  event = some "e";
  order = none;
  sold_at_ms = none;
}

abbrev two_seats : List String
two_seats = "seat:{e}:1" ∷ "seat:{e}:2" ∷ []

abbrev first_seat : List String
first_seat = "seat:{e}:1" ∷ []

abbrev on_hold : Table
on_hold = (hold_script table (hold_by "ann" "h1" two_seats) opening).1

hold_script-IsDecided_example :
    IsDecided table table_hashes table_numbers
      (hold_by "ann" "h1" two_seats)
      opening
      (hold_script table (hold_by "ann" "h1" two_seats) opening).0
      (hold_script table (hold_by "ann" "h1" two_seats) opening).1
hold_script-IsDecided_example =
    hold_script-IsDecided table table_hashes table_numbers (hold_by "ann" "h1" two_seats)
      (omega arith) opening

granted_test : is_grant (hold_script table (hold_by "ann" "h1" two_seats) opening).0 ≡ true
unfolding hold_script hold_counted hold_free first_taken take_seats mark_held ◌+ℤ◌ ◌-ℤ◌
granted_test = refl

-- The first seat is sold alone; another user asks for it in vain; then both are sold.
commit_script-once_example : ◌≡◌ {A = String} "h1" "h1" × ◌≡◌ {A = String} "ann" "ann"
unfolding hold_script hold_counted hold_free first_taken take_seats mark_held commit_script
    commit_for commit_new after_check sell sell_seats sell_one take_off remember stamp check_seats
    replayed ◌+ℤ◌ ◌-ℤ◌
commit_script-once_example =
    commit_script-once table table_hashes table_numbers (commit_by "ann" "h1" first_seat)
      (commit_by "ann" "h1" two_seats) "seat:{e}:1" on_hold refl refl
      (then_hold (hold_by "bob" "h2" first_seat) (omega arith) here) refl refl

-- A first seat whose key has ended, and a release of its hold after that.
abbrev ended : Table
ended = record opening { field = λ k f. elim k [ seat s ↦ none | other ↦ fields other f ] }

abbrev release_first : ReleaseArgs
release_first = record {
  inv_key = "inventory:{e}:vip";
  seat_keys = first_seat;
  hold = "h1";
  user = "ann";
  event = "e";
}

hold_script-lost_example :
    is_grant
      (hold_script table
        (hold_by "bob" "h2" first_seat)
        (release_script table release_first ended).1).0
    ≡ false
hold_script-lost_example =
    hold_script-lost table table_hashes table_numbers (hold_by "bob" "h2" first_seat) "seat:{e}:1"
      ended (record { no_status = refl; no_hold = refl }) (then_release release_first tt here)
      (omega arith) refl

release_script-commit_script_example :
    (table.hget
        (seat "seat:{e}:1")
        status
        (release_script table release_first
          (commit_script table (commit_by "ann" "h1" two_seats) on_hold).1).1
      ≡ some "AVAILABLE")
    × (table.hget
          (seat "seat:{e}:1")
          hold_id
          (release_script table release_first
            (commit_script table (commit_by "ann" "h1" two_seats) on_hold).1).1
        ≡ none)
unfolding hold_script hold_counted hold_free first_taken take_seats mark_held commit_script
    commit_for commit_new after_check sell check_seats replayed ◌+ℤ◌ ◌-ℤ◌
release_script-commit_script_example =
    release_script-commit_script table table_hashes table_numbers (commit_by "ann" "h1" two_seats)
      release_first "seat:{e}:1" on_hold refl refl refl refl

release_script-hold_script_example :
    IsRestored table table_hashes table_numbers
      (hold_by "ann" "h1" two_seats)
      opening
      (release_script table (release_of (hold_by "ann" "h1" two_seats)) on_hold).1
unfolding hold_script hold_counted hold_free first_taken take_seats mark_held ◌+ℤ◌ ◌-ℤ◌
release_script-hold_script_example =
    release_script-hold_script table table_hashes table_numbers (hold_by "ann" "h1" two_seats)
      opening (omega arith) refl

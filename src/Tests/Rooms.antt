-- ===== src/Tests/Rooms.antt =====
-- The theorems on joins, statuses, admissions and shuffles at concrete queues.
use crowdtic.Base.{
  ◌+◌, ◌≤◌, ◌≡◌, refl, inl, inr, String, true, false, none, some, [], ◌∷◌, arith, ok, throw, sym,
  Bool-cases, str_eq, parse_int, eq_iff,
}
use crowdtic.Platform.{}
use crowdtic.Env.{setting}
use crowdtic.Room.Queue.{sort_entries, find_index}
use crowdtic.Room.Seats.{count, one_for}
use crowdtic.Room.Moved.{maybe_shuffle_pool-moves}
use crowdtic.Room.Joined.{IsJoined, OneSeat, join_kv-IsJoined}
use crowdtic.Env.{Env}
use crowdtic.Redis.{enabled}
use crowdtic.Room.Admission.{HasMoved, admit_users-strands, IsAdmission, admit_users-IsAdmission}
use crowdtic.Room.Join.{join_kv}
use crowdtic.Room.Admit.{admit_users}
use crowdtic.Room.Pool.{maybe_shuffle_pool}
use crowdtic.Middleware.Enforce.{}
use crowdtic.Room.Standing.{IsAnswered, status_of-IsAnswered, ranks_at, issued_at}
use crowdtic.Room.Overtaken.{status_of-admit_users}
use crowdtic.Room.Reach.{joins, shuffles, none_yet, then_one, Steps-OneSeat}
use crowdtic.Room.Status.{status_of, status_reply}
use crowdtic.Http.{json, reported, no_store}
use crowdtic.Tests.Coder.{crypto}
use crowdtic.Tests.World.{World, platform, kv}
use crowdtic.Tests.Data.{budi, env, off, start, early, known}
use crowdtic.Env.{setting}
use crowdtic.Bucket.Spent.{spent, calls_of, spent-le-rate}
use crowdtic.Bucket.Rate.{end_of}
use crowdtic.Bucket.Consume.{token_bucket_consume, load_bucket, save_bucket}
use crowdtic.Platform.{bucket, bucket_key, BucketState, waiting_room_kv}
use crowdtic.Base.{◌*◌, ◌-◌}
use crowdtic.RateLimit.{ip, hit_rate_limit}
use crowdtic.RateLimit.Window.{let_through, let_through_lem}

ana_or_budi : (user : String) → one_for user "ana" + one_for user "budi" ≤ 1
ana_or_budi user = elim (Bool-cases (str_eq "ana" user)) [
  | inl e ↦ rw (sym ((eq_iff "ana" user).0 e)) (omega arith)
  | inr e ↦ ground (arith, e)
]

start-OneSeat : OneSeat kv env start "concert"
unfolding kv count platform
start-OneSeat user = omega (arith, ana_or_budi user)

join_kv-IsJoined_example :
    IsJoined kv env "concert" "cici" start (join_kv platform env "concert" "cici" false 9 start)
join_kv-IsJoined_example = join_kv-IsJoined kv env "concert" "cici" false 9 start start-OneSeat

admit_users-IsAdmission_example :
    IsAdmission
      (crypto known)
      kv
      env
      off
      "concert"
      1
      7
      60
      (some 1)
      none
      start
      (admit_users (crypto known) platform env "concert" 1 (some 1) none start)
unfolding setting kv parse_int
admit_users-IsAdmission_example =
    admit_users-IsAdmission (crypto known) kv env off "concert" 1 7 60 (some 1) none start refl refl
      (omega arith) refl

-- Without a setting, tokens last 45 seconds.
abbrev default_env : Env
default_env = record env { jwt_ttl_sec = none }

default_off : enabled default_env ≡ false
default_off = refl

admit_users-strands_example :
    (x : String) × ((admit_users
        (crypto known)
        platform
        default_env
        "concert"
        1
        (some 1)
        none
        start).0
      ≡ throw x)
    × HasMoved
        (crypto known)
        kv
        default_env
        default_off
        "concert"
        1
        7
        start
        (admit_users (crypto known) platform default_env "concert" 1 (some 1) none start).1
unfolding setting kv sort_entries
admit_users-strands_example =
    admit_users-strands (crypto known) kv default_env default_off "concert" 1 7 45 (some 1) none
      start refl refl (omega arith) refl budi [] refl

maybe_shuffle_pool-moves_example : (maybe_shuffle_pool platform env "concert" early).0 ≡ ok true
unfolding kv
maybe_shuffle_pool-moves_example = (maybe_shuffle_pool-moves kv env off "concert" early refl refl).0

status_of-IsAnswered_example :
    IsAnswered
      (crypto known)
      kv
      env
      off
      "concert"
      "budi"
      none
      7
      60
      start
      (status_of (crypto known) platform env "concert" "budi" none start)
unfolding setting kv parse_int
status_of-IsAnswered_example =
    status_of-IsAnswered (crypto known) kv env off "concert" "budi" none 7 60 start refl refl refl

abbrev admitted_one : World
admitted_one = (admit_users (crypto known) platform env "concert" 1 (some 1) none start).1

status_of-admit_users_example :
    (status_of (crypto known) platform env "concert" "ana" none admitted_one).0
    ≡ ok (
        json
          (reported (
            status_reply "concert" "ana"
              (ranks_at (crypto known) kv env off "concert" "ana" admitted_one)
              (some 8)
              (some (issued_at (crypto known) kv env off "concert" "ana" 60 admitted_one))))
          200
          (no_store ∷ [])
          none)
unfolding setting kv parse_int sort_entries find_index
status_of-admit_users_example =
    status_of-admit_users (crypto known) kv env off "concert" "ana" 1 7 60 0 (some 1) none start
      refl refl refl refl (omega arith)

early-OneSeat : OneSeat kv env early "concert"
unfolding kv count platform
early-OneSeat user = omega (arith, ana_or_budi user)

abbrev joined_late : World
joined_late = (join_kv platform env "concert" "cici" true 9 early).1

Steps-OneSeat_example :
    OneSeat kv env (maybe_shuffle_pool platform env "concert" joined_late).1 "concert"
Steps-OneSeat_example =
    Steps-OneSeat kv env off "concert"
      (then_one early joined_late (maybe_shuffle_pool platform env "concert" joined_late).1
        (then_one early early joined_late (none_yet early) (joins "cici" true 9 early))
        (shuffles joined_late))
      early-OneSeat

let_through_lem_example : let_through kv env ip "10.0.0.1" 2 3 start ≡ 2
unfolding platform kv hit_rate_limit
let_through_lem_example =
    let_through_lem kv env ip "10.0.0.1" 2 off 28333333 3 0 start (refl, (refl, (refl, tt))) refl

abbrev stored : BucketState
stored = record { tokens = some 1000; last_ms = 1699999999000 }

abbrev paced : World
paced = record {
  clock = 1700000000000;
  drawn = 1;
  kv_store = ((waiting_room_kv, bucket_key "concert"), bucket stored) ∷ [];
}

spent-le-rate_example :
    1000 * spent kv env "concert" (2 ∷ 1 ∷ []) paced
    ≤ 1000 * 2
      + (end_of 1699999999000 (calls_of kv env "concert" (2 ∷ 1 ∷ []) paced) - 1699999999000) * 2
unfolding kv platform setting parse_int token_bucket_consume load_bucket save_bucket calls_of
spent-le-rate_example =
    spent-le-rate kv env "concert" off 2 refl (2 ∷ 1 ∷ []) stored paced refl
      (omega arith, (omega arith, tt)) (omega arith)

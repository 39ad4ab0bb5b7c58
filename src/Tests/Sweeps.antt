-- ===== src/Tests/Sweeps.antt =====
-- The theorems on the sweep and on joins side by side.
use crowdtic.Base.{
  ℕ, ◌≡◌, ◌≢◌, refl, inl, ◌⊎◌, String, eq_iff, Option, none, some, false, true, [], ◌∷◌, ok, arith,
}
use crowdtic.Platform.{Platform, Key, waiting_room_kv, meta_key, meta, pool_key, active_key}
use crowdtic.Room.Join.{Place, kv_pool_read, join_kv, join_redis}
use crowdtic.Room.Queue.{has}
use crowdtic.Room.Schedule.{sweep_one}
use crowdtic.Room.Seats.{count}
use crowdtic.Room.Sets.{url_of, token_of}
use crowdtic.Room.Store.{KvLaws, value_at, queue_at}
use crowdtic.Room.Due.{Swept, sweep_one-Swept}
use crowdtic.Room.Race.{pool_after, kv_pool-overwritten}
use crowdtic.Room.Spec.{join_of, kv_standing, join_kv-join_of}
use crowdtic.Room.Apart.{IsApart, Joins-IsApart, then_one, none_yet}
use crowdtic.Tests.World.{World, platform, kv}
use crowdtic.Tests.Data.{env, off, early}
use crowdtic.Tests.Fetches.{redis_env, redis_on}
use crowdtic.Tests.Shelf.{Shelf, shelf, shelf-laws, nobody-score}

-- A platform on which every date is the same instant.
abbrev dated : Platform World
dated = record platform { date_parse = λ s. some 1699999999999 }

dated_kv : KvLaws dated
dated_kv = record {
  lookup = kv.lookup;
  put = kv.put;
  kv_get_lem = kv.kv_get_lem;
  kv_put_lem = kv.kv_put_lem;
  kv_put_for = kv.kv_put_for;
  kv_put_short = kv.kv_put_short;
  lookup-put_self = kv.lookup-put_self;
  lookup-put_ne = kv.lookup-put_ne;
  lookup-date_now = kv.lookup-date_now;
  lookup-math_random = kv.lookup-math_random;
  lookup-random_uuid = kv.lookup-random_uuid;
}

abbrev scheduled : World
scheduled = record early {
  kv_store =
      ((waiting_room_kv, meta_key "concert"), meta (some "2023-11-14T22:13:19.999Z"))
      ∷ early.kv_store;
}

sweep_one-Swept_example :
    Swept dated_kv env off "concert" scheduled (sweep_one dated env "concert" scheduled).1
sweep_one-Swept_example = sweep_one-Swept dated_kv env off "concert" scheduled

cici-absent : has "cici" (queue_at kv early (pool_key "concert")) ≡ false
unfolding kv has
cici-absent = refl

cici-apart : ◌≢◌ {A = String} "cici" "dodo"
cici-apart = λ e. ground (arith, eq_iff "cici" "dodo", e)

kv_pool-overwritten_example :
    let raw = value_at kv early (pool_key "concert") in
    let first = (kv_pool_read platform env "concert" "cici" 9 raw early).1 in
    (place : Place) × (i : ℕ) × ((kv_pool_read platform env "concert" "cici" 9 raw early).0
      ≡ ok place)
    × (place.position ≡ some i)
    × (count "cici" (pool_after kv env "concert" "cici" 9 raw early) ≡ 1)
    × (count "cici" (pool_after kv env "concert" "dodo" 4 raw first) ≡ 0)
kv_pool-overwritten_example =
    kv_pool-overwritten kv env "concert" "cici" "dodo" 9 4 early cici-absent cici-apart

-- Before the sale, and after its start.
abbrev ana_early : Shelf
ana_early = (join_redis shelf redis_env "concert" "ana" true 1700000000000 7 []).1

abbrev both_joined : Shelf
both_joined = (join_redis shelf redis_env "concert" "budi" false 1700000000500 9 ana_early).1

nobody-IsApart :
    IsApart redis_env redis_on (shelf-laws (url_of redis_env) (token_of redis_env)) "concert" []
nobody-IsApart v = inl (nobody-score (url_of redis_env) (token_of redis_env) (pool_key "concert") v)

abbrev score_of : Shelf → Key → String → Option ℕ
score_of = (shelf-laws (url_of redis_env) (token_of redis_env)).score_of

Joins-IsApart_example :
    (score_of both_joined (pool_key "concert") "ana" ≡ none)
    ⊎ (score_of both_joined (active_key "concert") "ana" ≡ none)
Joins-IsApart_example =
    Joins-IsApart redis_env redis_on (shelf-laws (url_of redis_env) (token_of redis_env)) "concert"
      [] nobody-IsApart
      (then_one "budi" false 1700000000500 9 (then_one "ana" true 1700000000000 7 none_yet)) "ana"

join_kv-join_of_example :
    kv_standing kv env "concert" (join_kv platform env "concert" "cici" true 9 early).1 "ana"
    ≡ join_of false "cici" (kv_standing kv env "concert" early) "ana"
unfolding kv
join_kv-join_of_example = join_kv-join_of kv env "concert" "cici" true 9 early "ana"

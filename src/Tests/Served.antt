-- ===== src/Tests/Served.antt =====
-- An admission, a shuffle and a status with Redis at concrete inputs.
use mathlib.Core.List.{Nodup, Nodup-cons, Nodup-nil, not-mem-nil, mem-cons, Mem}
use mathlib.Core.Logic.{∥∥₁_elim}
use mathlib.Core.HLevel.{⊥_prop}
use crowdtic.Base.{◌≡◌, refl, ap, String, eq_iff, inl, inr, none, some, [], ◌∷◌, arith, parse_int}
use crowdtic.Platform.{admitted_key, Key, pool_key, active_key, number}
use crowdtic.Env.{setting}
use crowdtic.Room.Admit.{admit_users}
use crowdtic.Room.Pool.{maybe_shuffle_pool}
use crowdtic.Room.Sets.{url_of, token_of}
use crowdtic.Room.Lined.{Line, line_names, LineLaws, PoolLaws}
use crowdtic.Room.Served.{IsServed, admit_users-IsServed}
use crowdtic.Room.Status.{status_of}
use crowdtic.Room.Told.{IsTold, status_of-IsTold}
use crowdtic.Room.Drawn.{IsDrawn, maybe_shuffle_pool-IsDrawn}
use crowdtic.Tests.Coder.{crypto}
use crowdtic.Tests.Data.{known}
use crowdtic.Tests.Fetches.{redis_env, redis_on}
use crowdtic.Tests.Lines.{Store, store, line-laws, pool-laws, rank-laws, value-store, members-store}
use crowdtic.RateLimit.{counter}

abbrev queue_of : Line → Key → Line
queue_of l (active_key event_id) = l
queue_of l _ = []

abbrev pool_of : Line → Key → Line
pool_of l (pool_key event_id) = l
pool_of l _ = []

-- Two users in the active set, with seven admitted before.
abbrev on_sale : Store
on_sale = record { lines = queue_of (("ana", 3) ∷ ("budi", 8) ∷ []); values = λ k. some (number 7) }

-- Two users in the pool.
abbrev waiting : Store
waiting = record { lines = pool_of (("ana", 3) ∷ ("budi", 8) ∷ []); values = λ k. none }

abbrev lines_here : LineLaws store (url_of redis_env) (token_of redis_env)
lines_here = line-laws (url_of redis_env) (token_of redis_env)

abbrev pools_here : PoolLaws store (url_of redis_env) (token_of redis_env) lines_here
pools_here = pool-laws (url_of redis_env) (token_of redis_env)

seven : counter (lines_here.value on_sale (admitted_key "concert")) ≡ some 7
seven =
    ap counter
      (value-store (url_of redis_env) (token_of redis_env) (admitted_key "concert") on_sale)

admit_users-IsServed_example :
    IsServed
      (crypto known)
      redis_env
      redis_on
      lines_here
      "concert"
      1
      7
      60
      (some 1)
      none
      on_sale
      (admit_users (crypto known) store redis_env "concert" 1 (some 1) none on_sale)
unfolding setting parse_int
admit_users-IsServed_example =
    admit_users-IsServed (crypto known) redis_env redis_on lines_here "concert" 1 7 60 (some 1) none
      on_sale refl refl seven

two_names : Nodup {A = String} ("ana" ∷ "budi" ∷ [])
two_names = Nodup-cons.1 (apart, Nodup-cons.1 (not-mem-nil, Nodup-nil))
  where
    apart : ¬ Mem {A = String} "ana" ("budi" ∷ [])
    apart m = ∥∥₁_elim (mem-cons.0 m) ⊥_prop (λ s. elim s [
      | inl e ↦ ground (arith, eq_iff "ana" "budi", e)
      | inr inside ↦ absurd (not-mem-nil inside)
    ])

none_twice : Nodup (line_names (lines_here.members waiting (pool_key "concert")))
none_twice =
    rw (members-store (url_of redis_env) (token_of redis_env) (pool_key "concert") waiting)
      two_names

maybe_shuffle_pool-IsDrawn_example :
    IsDrawn redis_env redis_on lines_here pools_here "concert" waiting
      (maybe_shuffle_pool store redis_env "concert" waiting)
maybe_shuffle_pool-IsDrawn_example =
    maybe_shuffle_pool-IsDrawn redis_env redis_on lines_here pools_here "concert" waiting none_twice

status_of-IsTold_example :
    IsTold
      (crypto known)
      redis_env
      redis_on
      lines_here
      (rank-laws (url_of redis_env) (token_of redis_env))
      "concert"
      "budi"
      none
      7
      60
      on_sale
      (status_of (crypto known) store redis_env "concert" "budi" none on_sale)
unfolding setting parse_int
status_of-IsTold_example =
    status_of-IsTold (crypto known) redis_env redis_on lines_here
      (rank-laws (url_of redis_env) (token_of redis_env)) "concert" "budi" none 7 60 on_sale refl
      refl seven

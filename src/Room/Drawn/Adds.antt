-- ===== src/Room/Drawn/Adds.antt =====
-- What the commands of the shuffle make of the line of the active queue.
use mathlib.Core.List.{Nodup, Nodup-cons, Mem, mem-cons_self, mem-cons_of_mem, append-nil}
use crowdtic.Base.{
  ℕ, suc, ◌+◌, ◌<◌, ◌≡◌, ◌≢◌, refl, ap, ◌∙◌, sym, subst, String, true, false, List, [], ◌∷◌, ◌++◌,
  All, All-append, arith, ltb, ◌==◌,
}
use crowdtic.Platform.{Platform, Key, Arg, word, key, score}
use crowdtic.Shuffle.{random_unit}
use crowdtic.Room.Queue.{ms}
use crowdtic.Room.Pool.{members_of, zadds}
use crowdtic.Room.Lined.{Line, line_names, names_reply, run, LineLaws, PoolLaws}

pub members_of-names_reply : (l : Line) → members_of (names_reply l) ≡ line_names l
unfolding names_reply
members_of-names_reply [] = refl
members_of-names_reply ((m, s) ∷ l) = ap (λ ms. m ∷ ms) (members_of-names_reply l)

line_names-last :
    (l : Line) (m : String) (s : ℕ) (rest : List String)
    → line_names (l ++ (m, s) ∷ []) ++ rest ≡ line_names l ++ m ∷ rest
line_names-last [] m s rest = refl
line_names-last ((n, t) ∷ l) m s rest = ap (λ ms. n ∷ ms) (line_names-last l m s rest)

ms_step : (now : ℕ) → ms now < ms (now + 1)
unfolding ms random_unit
ms_step now = omega arith

absent : (m : String) (l : List String) → ¬ Mem m l → All (λ x. m ≢ x) l
absent m [] out = tt
absent m (x ∷ l) out = (
  λ e. out (subst (λ (y : String). Mem m (y ∷ l)) e mem-cons_self),
  absent m l (λ inside. out (mem-cons_of_mem x inside)),
)

-- Everybody in the line stands below a time, and none of the newcomers is in it.
abbrev IsBefore : ℕ → List String → Line → Type 0
IsBefore now members = All (λ e. (e.1 < ms now) × All (λ x. e.0 ≢ x) members)

IsBefore-heads :
    (now : ℕ) (m : String) (members : List String) (l : Line)
    → IsBefore now (m ∷ members) l
    → All (λ e. (e.1 < ms now) × (e.0 ≢ m)) l
IsBefore-heads now m members [] h = tt
IsBefore-heads now m members (e ∷ l) ((below, (ne, rest)), h) =
    ((below, ne), IsBefore-heads now m members l h)

IsBefore-tails :
    (now : ℕ) (m : String) (members : List String) (l : Line)
    → IsBefore now (m ∷ members) l
    → IsBefore (now + 1) members l
IsBefore-tails now m members [] h = tt
IsBefore-tails now m members (e ∷ l) ((below, (ne, rest)), h) =
    ((omega (arith, below, ms_step now), rest), IsBefore-tails now m members l h)

IsBefore-last :
    (now : ℕ) (m : String) (members : List String) (l : Line)
    → ¬ Mem m members
    → IsBefore now (m ∷ members) l
    → IsBefore (now + 1) members (l ++ (m, ms now) ∷ [])
IsBefore-last now m members l out h =
    All-append (λ e. (e.1 < ms (now + 1)) × All (λ x. e.0 ≢ x) members) l _
      (IsBefore-tails now m members l h) ((ms_step now, absent m members out), tt)

module _ {W : Type 0} (p : Platform W) (url token : String) where
  pub run-append :
      (a b : List (List Arg)) (w : W)
      → run p url token (a ++ b) w ≡ run p url token b (run p url token a w)
  unfolding run
  run-append [] b w = refl
  run-append (args ∷ a) b w = run-append a b (p.fetch_redis url token args w).1

module _ {W : Type 0} {p : Platform W} {url token : String} (redis : LineLaws p url token)
    (pool : PoolLaws p url token redis) where
  run-zadd :
      (k : Key) (s : ℕ) (m : String) (batch : List (List Arg)) (w : W)
      → run p url token ((word "ZADD" ∷ key k ∷ score s ∷ word m ∷ []) ∷ batch) w
        ≡ run p url token batch (pool.zadd k s m w)
  unfolding run
  run-zadd k s m batch w = ap (λ r. run p url token batch r.1) (pool.zadd_lem k s m w).1

  -- What the ZADDs of newcomers make of a line.
  pub run-zadds :
      (k : Key) (now : ℕ) (members : List String) (w : W)
      → Nodup members
      → IsBefore now members (redis.members w k)
      → (line_names (redis.members (run p url token (zadds k now members) w) k)
          ≡ line_names (redis.members w k) ++ members)
        × ((j : Key)
            → k ≢ j
            → redis.members (run p url token (zadds k now members) w) j ≡ redis.members w j)
  unfolding zadds run
  run-zadds k now [] w apart before =
      (sym (append-nil (line_names (redis.members w k))), λ j ne. refl)
  run-zadds k now (m ∷ members) w apart before =
      let l = redis.members w k in
      let w₁ = pool.zadd k (ms now) m w in
      let (out, apart_rest) = Nodup-cons.0 apart in
      let last = pool.members-zadd_last k (ms now) m w (IsBefore-heads now m members l before) in
      let (names, others) =
        run-zadds k (now + 1) members w₁ apart_rest
          (rw last (IsBefore-last now m members l out before)) in
      rw (run-zadd k (ms now) m (zadds k (now + 1) members) w) (
        names ∙ ap (λ x. line_names x ++ members) last ∙ line_names-last l m (ms now) members,
        λ j ne. others j ne ∙ pool.members-zadd_other k j (ms now) m w ne,
      )

pub no_length : (n : ℕ) → (suc n == 0) ≡ false
no_length n = ground arith

pub some_length : (n : ℕ) → ltb 0 (suc n) ≡ true
some_length n = ground arith

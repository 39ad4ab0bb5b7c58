-- ===== src/Bucket/Rate.antt =====
-- What the token bucket lets through over a series of calls.
use native.Mathlib.Nat.{add-mul}
use crowdtic.Base.{
  ℕ, ◌+◌, ◌-◌, ◌*◌, ◌≤◌, ◌≡◌, Option, none, some, List, [], ◌∷◌, if◌then◌else◌, get_or, arith,
  subst, sym,
}
use crowdtic.Platform.{BucketState}
use crowdtic.Bucket.Step.{Decision, bucket_step, decide_tokens, refilled, or_full}

-- The tokens in a stored state, in thousandths.
abbrev pub held : BucketState → ℕ
held s = get_or s.tokens 0

-- What a call lets through.
abbrev pub passed : Decision → ℕ → ℕ
passed d need = if d.allowed then need else 0

-- The state after a series of calls, each a time and a number of tokens, and what they let through.
unfoldable pub run : ℕ → List (ℕ × ℕ) → BucketState → ℕ × BucketState
run rate [] s = (0, s)
run rate ((now, need) ∷ calls) s =
    let (d, s') = bucket_step (some rate) need now (some s) in
    let (n, t) = run rate calls s' in (passed d need + n, t)

-- The times do not go back.
abbrev pub InOrder : ℕ → List (ℕ × ℕ) → Type 0
InOrder last [] = Unit {0}
InOrder last ((now, need) ∷ calls) = (last ≤ now) × InOrder now calls

-- The time of the last call.
abbrev pub end_of : ℕ → List (ℕ × ℕ) → ℕ
end_of last [] = last
end_of last ((now, need) ∷ calls) = end_of now calls

pub decide-balance :
    (rate need now tokens : ℕ)
    → 1000 * passed (decide_tokens rate need now tokens).0 need
        + held (decide_tokens rate need now tokens).1
      ≡ tokens
unfolding decide_tokens
decide-balance rate need now tokens = ground arith

decide-last_ms : (rate need now tokens : ℕ) → (decide_tokens rate need now tokens).1.last_ms ≡ now
unfolding decide_tokens
decide-last_ms rate need now tokens = ground arith

pub refilled-le :
    (rate now : ℕ) (s : BucketState)
    → (refilled rate now s ≤ held s + (now - s.last_ms) * rate)
      × (refilled rate now s ≤ 1000 * rate)
unfolding refilled
refilled-le rate now s = (omega arith, omega arith)

module _ (rate need now : ℕ) (s : BucketState) where
  step-balance :
      1000 * passed (bucket_step (some rate) need now (some s)).0 need
        + held (bucket_step (some rate) need now (some s)).1
      ≤ held s + (now - s.last_ms) * rate
  unfolding bucket_step
  step-balance =
      omega (arith, decide-balance rate need now (refilled rate now s), (refilled-le rate now s).0)

  step-le-capacity : held (bucket_step (some rate) need now (some s)).1 ≤ 1000 * rate
  unfolding bucket_step
  step-le-capacity =
      omega (arith, decide-balance rate need now (refilled rate now s), (refilled-le rate now s).1)

  step-last_ms : (bucket_step (some rate) need now (some s)).1.last_ms ≡ now
  unfolding bucket_step
  step-last_ms = decide-last_ms rate need now (refilled rate now s)

end_of-le : (last : ℕ) (calls : List (ℕ × ℕ)) → InOrder last calls → last ≤ end_of last calls
end_of-le last [] h = omega arith
end_of-le last ((now, need) ∷ calls) h = omega (arith, end_of-le now calls h.1)

split_time : (rate a b c : ℕ) → a ≤ b → b ≤ c → (c - a) * rate ≡ (b - a) * rate + (c - b) * rate
split_time rate a b c h k =
    let e : c - a ≡ (b - a) + (c - b) = omega arith in rw e (add-mul (b - a) (c - b) rate)

-- The calls after a first one, from the state that it left at `now`.
rest-balance :
    (rate now : ℕ) (calls : List (ℕ × ℕ)) (t : BucketState) (total left : ℕ)
    → t.last_ms ≡ now
    → 1000 * total + left ≤ held t + (end_of t.last_ms calls - t.last_ms) * rate
    → 1000 * total + left ≤ held t + (end_of now calls - now) * rate
rest-balance rate now calls t total left e h =
    subst (λ m. 1000 * total + left ≤ held t + (end_of m calls - m) * rate) e h

run-balance :
    (rate : ℕ) (calls : List (ℕ × ℕ)) (s : BucketState)
    → InOrder s.last_ms calls
    → 1000 * (run rate calls s).0 + held (run rate calls s).1
      ≤ held s + (end_of s.last_ms calls - s.last_ms) * rate
unfolding run
run-balance rate [] s h = omega arith
run-balance rate ((now, need) ∷ calls) s h =
    let t = (bucket_step (some rate) need now (some s)).1 in
    omega (
      arith,
      step-balance rate need now s,
      split_time rate s.last_ms now (end_of now calls) h.0 (end_of-le now calls h.1),
      rest-balance rate now calls t (run rate calls t).0 (held (run rate calls t).1)
          (step-last_ms rate need now s)
          (run-balance rate calls t
            (subst (λ m. InOrder m calls) (sym (step-last_ms rate need now s)) h.1)),
    )

-- From a stored state of at most a full bucket, a series of calls at times that do not go back
-- lets through at most `rate` tokens and `rate` for each second that it lasts.
pub run-le-rate :
    (rate : ℕ) (calls : List (ℕ × ℕ)) (s : BucketState)
    → InOrder s.last_ms calls
    → held s ≤ 1000 * rate
    → 1000 * (run rate calls s).0 ≤ 1000 * rate + (end_of s.last_ms calls - s.last_ms) * rate
run-le-rate rate calls s h k = omega (arith, run-balance rate calls s h)

-- A call leaves a state of at most a full bucket, stamped with its time, whatever state it found.
pub step-IsBounded :
    (rate need now : ℕ) (s : Option BucketState)
    → (held (bucket_step (some rate) need now s).1 ≤ 1000 * rate)
      × ((bucket_step (some rate) need now s).1.last_ms ≡ now)
unfolding bucket_step
step-IsBounded rate need now none = (
  omega (
    arith,
    decide-balance rate need now (refilled rate now (or_full rate now none)),
    (refilled-le rate now (or_full rate now none)).1,
  ),
  decide-last_ms rate need now _,
)
step-IsBounded rate need now (some s) =
    (step-le-capacity rate need now s, step-last_ms rate need now s)

-- ===== src/Bucket/Retry.antt =====
-- Which calls can never pass.
use crowdtic.Base.{ℕ, ◌*◌, ◌≤◌, ◌<◌, ◌≡◌, ◌↔◌, true, false, Option, none, some, arith}
use crowdtic.Platform.{BucketState}
use crowdtic.Bucket.Step.{bucket_step, decide_tokens, refilled, or_full}
use crowdtic.Bucket.Rate.{refilled-le}

allowed_iff :
    (rate need now : ℕ) (s : Option BucketState)
    → ((bucket_step (some rate) need now s).0.allowed ≡ true)
      ↔ (1000 * need ≤ refilled rate now (or_full rate now s))
unfolding bucket_step decide_tokens
allowed_iff rate need now s = ground arith

refilled_full : (rate : ℕ) → refilled rate 0 (or_full rate 0 none) ≡ 1000 * rate
unfolding refilled
refilled_full rate = omega arith

over_capacity :
    (rate need : ℕ) → (bucket_step (some rate) need 0 none).0.allowed ≡ false → rate < need
over_capacity rate need h = ground (arith, allowed_iff rate need 0 none, refilled_full rate)

not_allowed :
    (rate need now : ℕ) (s : Option BucketState)
    → rate < need
    → (bucket_step (some rate) need now s).0.allowed ≡ false
not_allowed rate need now s over =
    ground (arith, allowed_iff rate need now s, refilled-le rate now (or_full rate now s))

-- Exactly the calls for more than `rate` tokens are refused at every time and in every state.
pub never-allowed_iff :
    (rate need : ℕ)
    → ((now : ℕ) (s : Option BucketState) → (bucket_step (some rate) need now s).0.allowed ≡ false)
      ↔ (rate < need)
never-allowed_iff rate need = (
  λ never. over_capacity rate need (never 0 none),
  λ over now s. not_allowed rate need now s over,
)

-- ===== src/Bucket/Step.antt =====
-- The arithmetic of `tokenBucketConsume`, between the read of the stored state and its write.
use crowdtic.Base.{
  ℕ, ◌+◌, ◌-◌, ◌*◌, ◌/◌, Bool, true, false, Option, none, some, ltb, ◌==◌, if◌then◌else◌, get_or,
  min, ceil_div,
}
use crowdtic.Platform.{BucketState}

-- `retryAfterMs`: a division by a rate of 0 gives Infinity.
pub data Delay : Type 0 where
  after_ms : ℕ → Delay
  forever : Delay

pub record Decision : Type 0 where
  pub allowed : Bool
  pub remaining : Option ℕ
  pub retry_after : Option Delay

-- `Math.ceil((deficit / rate) * 1000)`, with the deficit in thousandths.
unfoldable pub delay_for : ℕ → ℕ → Delay
delay_for deficit rate = if rate == 0 then forever else after_ms (ceil_div deficit rate)

-- `if (!state) state = { tokens: capacity, last_ms: now }`
abbrev pub or_full : ℕ → ℕ → Option BucketState → BucketState
or_full rate now none = record { tokens = some (1000 * rate); last_ms = now }
or_full rate now (some s) = s

-- `Math.min(capacity, state.tokens + refill)`; a stored null counts as 0.
unfoldable pub refilled : ℕ → ℕ → BucketState → ℕ
refilled rate now s = min (1000 * rate) (get_or s.tokens 0 + (now - s.last_ms) * rate)

abbrev pub refuse : ℕ → ℕ → ℕ → ℕ → Decision × BucketState
refuse rate need now tokens = (
  record {
    allowed = false;
    remaining = some (tokens / 1000);
    retry_after = some (delay_for (1000 * need - tokens) rate);
  },
  record { tokens = some tokens; last_ms = now },
)

abbrev pub grant : ℕ → ℕ → ℕ → Decision × BucketState
grant need now tokens = (
  record { allowed = true; remaining = some ((tokens - 1000 * need) / 1000); retry_after = none },
  record { tokens = some (tokens - 1000 * need); last_ms = now },
)

unfoldable pub decide_tokens : ℕ → ℕ → ℕ → ℕ → Decision × BucketState
decide_tokens rate need now tokens =
    if ltb tokens (1000 * need) then refuse rate need now tokens else grant need now tokens

-- A rate that is NaN makes the tokens NaN, and `tokens < need` false.
unfoldable pub bucket_step : Option ℕ → ℕ → ℕ → Option BucketState → Decision × BucketState
bucket_step none need now state = (
  record { allowed = true; remaining = none; retry_after = none },
  record { tokens = none; last_ms = now },
)
bucket_step (some rate) need now state =
    decide_tokens rate need now (refilled rate now (or_full rate now state))

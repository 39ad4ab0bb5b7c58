-- ===== src/RateLimit.antt =====
-- `hitRateLimit` of edge/waiting-room/src/index.ts: a counter for each window of one minute.
pub mod Window
use crowdtic.Base.{
  ℕ, ◌+◌, ◌-◌, ◌/◌, ◌%◌, String, Bool, false, Option, none, some, [], ◌∷◌, ltb, leb, ◌==◌,
  if◌then◌else◌, get_or, M, pure, ◌>>=◌, ◌>>◌, lift, parse_int,
}
use crowdtic.Platform.{
  Platform, rate_limit_kv, Key, rl_ip, rl_fp, word, key, count, Reply, nil, int, Value, text,
  number,
}
use crowdtic.Env.{Env}
use crowdtic.Redis.{enabled, cmd, as_count}

pub data Kind : Type 0 where
  ip fp : Kind

-- `rl:${kind}:${id}:${window}`
abbrev pub window_key : Kind → String → ℕ → Key
window_key ip id window = rl_ip id window
window_key fp id window = rl_fp id window

pub record Hit : Type 0 where
  pub allowed : Bool
  pub remaining : Option ℕ
  pub reset_sec : ℕ

-- `next <= limit`; a limit that is NaN allows nothing.
abbrev pub within : ℕ → Option ℕ → Bool
within n none = false
within n (some limit) = leb n limit

-- `Math.max(0, limit - next)`
abbrev pub left : ℕ → Option ℕ → Option ℕ
left n none = none
left n (some limit) = some (limit - n)

-- `(await redis.cmd<number>("TTL", windowKey)) ?? 60`; below zero there is no expiry.
abbrev pub as_ttl : Reply → ℕ
as_ttl nil = 60
as_ttl (int n) = n
as_ttl _ = 0

-- `curStr ? parseInt(curStr, 10) : 0`; `none` is NaN.
abbrev pub counter : Option Value → Option ℕ
counter none = some 0
counter (some (number n)) = some n
counter (some (text s)) = parse_int s
counter (some _) = none

abbrev pub printed : Option ℕ → Value
printed none = text "NaN"
printed (some n) = number n

-- The answer for the counter's new value, where `none` is NaN.
abbrev pub hit_of : Option ℕ → Option ℕ → ℕ → Hit
hit_of none limit reset = record { allowed = false; remaining = none; reset_sec = reset }
hit_of (some n) limit reset = record {
  allowed = within n limit;
  remaining = left n limit;
  reset_sec = reset;
}

abbrev pub successor : Option ℕ → Option ℕ
successor none = none
successor (some n) = some (n + 1)

module _ {W : Type 0} (p : Platform W) (env : Env) where
  unfoldable pub expire_first : ℕ → Key → M W (Unit {0})
  expire_first n k =
      if n == 1
      then (do _ ← cmd p env (word "EXPIRE" ∷ key k ∷ count 70 ∷ []); pure tt)
      else pure tt

  unfoldable pub hit_redis : Key → Option ℕ → ℕ → M W Hit
  unfolding expire_first
  hit_redis k limit now_sec = do
    reply ← cmd p env (word "INCR" ∷ key k ∷ [])
    let n = get_or (as_count reply) 1
    expire_first n k
    ttl ← cmd p env (word "TTL" ∷ key k ∷ [])
    pure (hit_of (some n) limit (if ltb 0 (as_ttl ttl) then as_ttl ttl else 60 - now_sec % 60))

  unfoldable pub hit_kv : Key → Option ℕ → ℕ → M W Hit
  hit_kv k limit now_sec = do
    cur ← p.kv_get rate_limit_kv k
    let next = successor (counter cur)
    p.kv_put rate_limit_kv k (printed next) (some 70)
    pure (hit_of next limit (60 - now_sec % 60))

  unfoldable pub hit_rate_limit : Kind → String → Option ℕ → M W Hit
  unfolding hit_redis hit_kv
  hit_rate_limit kind id limit = do
    now_ms ← lift p.date_now
    let now_sec = now_ms / 1000
    let k = window_key kind id (now_sec / 60)
    if enabled env then hit_redis k limit now_sec else hit_kv k limit now_sec

-- ===== src/Env.antt =====
-- The settings of the worker (edge/waiting-room/src/index.ts, `Env`) and its constants.
use crowdtic.Base.{ℕ, String, Bool, not, Option, none, some, is_blank, parse_int, get_or}

pub record Env : Type 0 where
  pub upstash_redis_rest_url : Option String
  pub upstash_redis_rest_token : Option String
  pub jwt_secret : String
  pub jwt_ttl_sec : Option String
  pub jwt_issuer : Option String
  pub jwt_audience : Option String
  pub turnstile_secret_key : Option String
  pub admit_secret : Option String
  pub admission_rate_per_sec : Option String
  pub rate_limit_ip_per_min : Option String
  pub rate_limit_fp_per_min : Option String
  pub queue_active_max_batch : Option String

abbrev pub default_ttl_sec : ℕ
default_ttl_sec = 45

abbrev pub default_rate_per_sec : ℕ
default_rate_per_sec = 2000

abbrev pub default_rl_ip : ℕ
default_rl_ip = 20

abbrev pub default_rl_fp : ℕ
default_rl_fp = 20

abbrev pub default_batch : ℕ
default_batch = 2000

-- `!!setting`
abbrev pub is_set : Option String → Bool
is_set o = not (is_blank (get_or o ""))

-- `parseInt(setting ?? String(default), 10)`; `none` is NaN.
unfoldable pub setting : Option String → ℕ → Option ℕ
unfolding parse_int
setting none default = some default
setting (some s) default = parse_int s

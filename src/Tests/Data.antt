-- ===== src/Tests/Data.antt =====
-- A worker, two queues, a token and a request.
use crowdtic.Base.{◌≡◌, refl, if◌then◌else◌, String, false, none, some, [], ◌∷◌, str_eq}
use crowdtic.Platform.{Entry, waiting_room_kv, entries, number, active_key, pool_key, admitted_key}
use crowdtic.Env.{Env}
use crowdtic.Redis.{enabled}
use crowdtic.Token.Claims.{Payload}
use crowdtic.Token.Sign.{Grant, claims_of}
use crowdtic.Token.Verify.{VerifyOptions}
use crowdtic.Middleware.Request.{NextRequest, ProcessEnv}
use crowdtic.Middleware.Enforce.{}
use crowdtic.Tests.World.{World}

abbrev pub env : Env
env = record {
  upstash_redis_rest_url = none;
  upstash_redis_rest_token = none;
  jwt_secret = "s3cret";
  jwt_ttl_sec = some "60";
  jwt_issuer = none;
  jwt_audience = none;
  turnstile_secret_key = none;
  admit_secret = some "admit";
  admission_rate_per_sec = some "2";
  rate_limit_ip_per_min = none;
  rate_limit_fp_per_min = none;
  queue_active_max_batch = none;
}

pub off : enabled env ≡ false
off = refl

abbrev pub ana : Entry
ana = record { m = "ana"; s = 5 }

abbrev pub budi : Entry
budi = record { m = "budi"; s = 3 }

abbrev pub start : World
start = record {
  clock = 1700000000000;
  drawn = 1;
  kv_store =
      ((waiting_room_kv, active_key "concert"), entries (ana ∷ budi ∷ []))
      ∷ ((waiting_room_kv, admitted_key "concert"), number 7)
      ∷ [];
}

abbrev pub early : World
early = record {
  clock = 1700000000000;
  drawn = 1;
  kv_store = ((waiting_room_kv, pool_key "concert"), entries (ana ∷ budi ∷ [])) ∷ [];
}

abbrev pub grant : Grant
grant = record {
  user_id = "ana";
  event_id = "concert";
  ttl_sec = some 60;
  issuer = none;
  audience = none;
}

abbrev pub known : Payload
known = claims_of grant 1700000000 "0a1b"

abbrev pub options : VerifyOptions
options = record { leeway_sec = 5; issuer = none; audience = none }

abbrev pub token : String
token =
    "YWxnOkhTMjU2LHR5cDpKV1Qs.aXNzOnRpa2V0LXdhaXRpbmctcm9vbSxhdWQ6dGlrZXQtY2hlY2tvdXQsaWF0OgAsZXhwOjwsbmJmOgAsanRpOjBhMWIsdXNlcl9pZDphbmEsZXZlbnRfaWQ6Y29uY2VydCw.hQ"

abbrev pub request : NextRequest
request = record {
  pathname = "/checkout/concert";
  search = "";
  query = λ name. if str_eq name "token" then some token else none;
  header = λ name. none;
  cookie = λ name. none;
}

abbrev pub process_env : ProcessEnv
process_env = record {
  jwt_secret = some "s3cret";
  queue_jwt_secret = none;
  jwt_issuer = none;
  jwt_audience = none;
  upstash_redis_rest_url = none;
  upstash_redis_rest_token = none;
}

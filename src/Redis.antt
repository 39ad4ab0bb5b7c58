-- ===== src/Redis.antt =====
-- `RedisClient` of edge/waiting-room/src/index.ts, over the REST service, and the casts of replies.
use crowdtic.Base.{
  ℕ, String, Bool, ◌&&◌, Option, none, some, List, if◌then◌else◌, M, pure, fail, get_or,
}
use crowdtic.Platform.{
  Platform, Arg, Reply, nil, int, bulk, Http, replied, refused, unreachable, Value, end, array,
}
use crowdtic.Env.{Env, is_set}

-- `get enabled()`
abbrev pub enabled : Env → Bool
enabled env = is_set env.upstash_redis_rest_url && is_set env.upstash_redis_rest_token

-- `if (!res.ok) throw …; return j.result`
unfoldable pub of_http : {W : Type 0} → Http → M W Reply
of_http (replied r) = pure r
of_http (refused status body) = fail "redis command failed"
of_http (unreachable e) = fail e

module _ {W : Type 0} (p : Platform W) (env : Env) where
  abbrev url : String
  url = get_or env.upstash_redis_rest_url ""

  abbrev token : String
  token = get_or env.upstash_redis_rest_token ""

  -- A null result is `nil`.
  unfoldable pub cmd : List Arg → M W Reply
  unfolding of_http
  cmd args w =
      if enabled env
      then (let (h, w') = p.fetch_redis url token args w in of_http h w')
      else pure nil w

  unfoldable pub pipeline : List (List Arg) → M W Reply
  unfolding of_http
  pipeline cmds w =
      if enabled env
      then (let (h, w') = p.fetch_pipeline url token cmds w in of_http h w')
      else pure (array end) w

-- `cmd<number>`: a null reply is `none`.
abbrev pub as_count : Reply → Option ℕ
as_count (int n) = some n
as_count _ = none

-- `cmd<string | null>("GET", …)`
abbrev pub as_stored : Reply → Option Value
as_stored (bulk v) = some v
as_stored _ = none

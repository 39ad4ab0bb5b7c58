-- ===== src/Room/Status.antt =====
-- `handleStatus`: the place of a user, and a token for a place within the admitted watermark.
use crowdtic.Base.{
  ℕ, ◌+◌, ◌-◌, ◌*◌, String, Bool, true, false, ◌&&◌, ◌||◌, Option, none, some, List, [], ◌∷◌,
  length, ltb, leb, if◌then◌else◌, get_or, ceil_div, M, pure, fail, ◌>>=◌, ◌>>◌, try_catch,
  is_blank, trim,
}
use crowdtic.Platform.{
  Platform, Entry, text, pool_key, active_key, admitted_key, jti_key, waiting_room_kv, word, key,
  stored, count,
}
use crowdtic.Env.{Env, setting, default_ttl_sec, default_rate_per_sec, default_batch}
use crowdtic.Redis.{enabled, cmd, as_count, as_stored}
use crowdtic.Http.{
  Request, Response, StatusReply, Phase, pre_sale_pool, active_queue, not_in_queue, QueueName, pool,
  active, nowhere, error, reported, no_store, json,
}
use crowdtic.RateLimit.{counter}
use crowdtic.Token.Base64.{Crypto}
use crowdtic.Token.Claims.{Json, str, claim, Payload}
use crowdtic.Token.Sign.{sign_queue_token}
use crowdtic.Token.Verify.{Verdict, valid, invalid, verify_queue_token, no_options}
use crowdtic.Room.Queue.{as_entries, find_index}

pub record Ranks : Type 0 where
  pub pool_rank : Option ℕ
  pub active_rank : Option ℕ
  pub pool_size : ℕ
  pub active_size : ℕ

abbrev pub size_of : Option (List Entry) → ℕ
size_of none = 0
size_of (some es) = length es

abbrev pub rank_in : String → Option (List Entry) → Option ℕ
rank_in user none = none
rank_in user (some es) = find_index user es

pub record Standing : Type 0 where
  pub phase : Phase
  pub queue : QueueName
  pub position : Option ℕ

-- The active queue comes first, then the pool.
abbrev pub standing_of : Option ℕ → Option ℕ → Standing
standing_of (some i) _ = record { phase = active_queue; queue = active; position = some (i + 1) }
standing_of none (some i) = record { phase = pre_sale_pool; queue = pool; position = some (i + 1) }
standing_of none none = record { phase = not_in_queue; queue = nowhere; position = none }

-- `queue === "active" && activeRank < admittedWatermark + DEFAULT_BATCH`, then
-- `position <= admittedWatermark`; a watermark that is NaN admits nobody.
abbrev pub is_admitted : Option ℕ → Option ℕ → Bool
is_admitted (some i) (some w) = ltb i (w + default_batch) && leb (i + 1) w
is_admitted _ _ = false

-- `Math.max(0, Math.ceil((position - admittedWatermark) / DEFAULT_RATE_PER_SEC))`; NaN and null are
-- both sent as null.
abbrev pub wait_behind : Option ℕ → Option ℕ → Option ℕ
wait_behind (some i) (some w) = some (ceil_div (i + 1 - w) default_rate_per_sec)
wait_behind _ _ = none

abbrev pub poll_of : Option ℕ → ℕ
poll_of none = 2500
poll_of (some i) = if leb i 100 then 1000 else 2500

-- `(v.payload.jti as string) ?? "unknown"`
abbrev pub text_or_unknown : Option Json → String
text_or_unknown (some (str s)) = s
text_or_unknown _ = "unknown"

abbrev pub jti_of : Payload → String
jti_of payload = text_or_unknown (claim "jti" payload)

-- A token with the instant at which it ends, in milliseconds.
pub record Issued : Type 0 where
  pub token : List ℕ
  pub expires_at : ℕ

abbrev pub token_of : Option Issued → Option (List ℕ)
token_of none = none
token_of (some i) = some i.token

abbrev pub expiry_of : Option Issued → Option ℕ
expiry_of none = none
expiry_of (some i) = some i.expires_at

abbrev pub status_reply : String → String → Ranks → Option ℕ → Option Issued → StatusReply
status_reply event_id user_id r watermark issued =
    let st = standing_of r.active_rank r.pool_rank in
    record {
      event_id = event_id;
      user_id = user_id;
      phase = st.phase;
      queue = st.queue;
      position = st.position;
      pool_size = r.pool_size;
      active_size = r.active_size;
      admitted_watermark = watermark;
      estimated_wait_sec = wait_behind r.active_rank watermark;
      token = token_of issued;
      token_expires_at = expiry_of issued;
      poll_interval_ms = poll_of st.position;
    }

module _ {W : Type 0} (p : Platform W) (env : Env) where
  unfoldable pub ranks_redis : String → String → M W Ranks
  ranks_redis event_id user_id = do
    pr ← cmd p env (word "ZRANK" ∷ key (pool_key event_id) ∷ word user_id ∷ [])
    ar ← cmd p env (word "ZRANK" ∷ key (active_key event_id) ∷ word user_id ∷ [])
    pc ← cmd p env (word "ZCARD" ∷ key (pool_key event_id) ∷ [])
    ac ← cmd p env (word "ZCARD" ∷ key (active_key event_id) ∷ [])
    pure (record {
      pool_rank = as_count pr;
      active_rank = as_count ar;
      pool_size = get_or (as_count pc) 0;
      active_size = get_or (as_count ac) 0;
    })

  unfoldable pub ranks_kv : String → String → M W Ranks
  ranks_kv event_id user_id = do
    pool_raw ← p.kv_get waiting_room_kv (pool_key event_id)
    active_raw ← p.kv_get waiting_room_kv (active_key event_id)
    pure (record {
      pool_rank = rank_in user_id (as_entries pool_raw);
      active_rank = rank_in user_id (as_entries active_raw);
      pool_size = size_of (as_entries pool_raw);
      active_size = size_of (as_entries active_raw);
    })

  unfoldable pub read_ranks : String → String → M W Ranks
  unfolding ranks_redis ranks_kv
  read_ranks event_id user_id =
      if enabled env then ranks_redis event_id user_id else ranks_kv event_id user_id

  -- `admittedRaw ? parseInt(admittedRaw, 10) : 0`
  unfoldable pub read_watermark : String → M W (Option ℕ)
  read_watermark event_id =
      if enabled env
      then (do
        raw ← cmd p env (word "GET" ∷ key (admitted_key event_id) ∷ [])
        pure (counter (as_stored raw)))
      else (do raw ← p.kv_get waiting_room_kv (admitted_key event_id); pure (counter raw))

  -- The entry of a token in the allowlist.
  unfoldable pub allow_jti : String → String → ℕ → M W (Unit {0})
  allow_jti event_id jti ttl_sec =
      if enabled env
      then (do
        _ ← cmd p env (
            word "SET"
            ∷ key (jti_key event_id jti)
            ∷ stored (text "1")
            ∷ word "EX"
            ∷ count ttl_sec
            ∷ [])
        pure tt)
      else p.kv_put waiting_room_kv (jti_key event_id jti) (text "1") (some ttl_sec)

module _ {W : Type 0} (c : Crypto) (p : Platform W) (env : Env) where
  unfoldable pub allow_verified : String → ℕ → Verdict → M W (Unit {0})
  allow_verified event_id ttl (valid payload) = allow_jti p env event_id (jti_of payload) (ttl + 10)
  allow_verified event_id ttl (invalid reason) = pure tt

  -- `new Date(exp * 1000).toISOString()` throws on NaN; the allowlist write is under a `try`.
  unfoldable pub issue_signed : String → Option ℕ → List ℕ → Option ℕ → M W Issued
  unfolding allow_verified
  issue_signed event_id (some ttl) token (some exp) = do
    try_catch
        (do
          v ← verify_queue_token c p env.jwt_secret token no_options
          allow_verified event_id ttl v)
        (λ _. pure tt)
    pure (record { token = token; expires_at = exp * 1000 })
  issue_signed event_id _ token _ = fail "RangeError"

  unfoldable pub issue_token : String → String → M W Issued
  unfolding issue_signed
  issue_token event_id user_id = do
    let ttl = setting env.jwt_ttl_sec default_ttl_sec
    signed ← sign_queue_token c p env.jwt_secret (record {
      user_id = user_id;
      event_id = event_id;
      ttl_sec = ttl;
      issuer = env.jwt_issuer;
      audience = env.jwt_audience;
    })
    issue_signed event_id ttl signed.token signed.exp

  unfoldable pub issue_if : Bool → String → String → M W (Option Issued)
  issue_if true event_id user_id = do i ← issue_token event_id user_id; pure (some i)
  issue_if false event_id user_id = pure none

  unfoldable pub status_of : String → String → Option String → M W Response
  unfolding issue_if
  status_of event_id user_id origin = do
    r ← read_ranks p env event_id user_id
    watermark ← read_watermark p env event_id
    issued ← issue_if (is_admitted r.active_rank watermark) event_id user_id
    pure (
        json (reported (status_reply event_id user_id r watermark issued)) 200 (no_store ∷ [])
          origin)

  unfoldable pub handle_status : Request → Option String → M W Response
  unfolding status_of
  handle_status req origin =
      let event_id = trim (get_or (req.query "event_id") "") in
      let user_id = trim (get_or (req.query "user_id") "") in
      if is_blank event_id || is_blank user_id
      then pure (json (error "event_id and user_id required") 400 [] origin)
      else status_of event_id user_id origin

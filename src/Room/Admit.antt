-- ===== src/Room/Admit.antt =====
-- `handleAdmit`: batch admission behind the token bucket.
use crowdtic.Base.{
  ℕ, zero, suc, ◌+◌, ◌*◌, ◌==◌, String, Bool, not, ◌||◌, Option, none, some, List, [], ◌∷◌, ◌++◌,
  map, length, take, drop, min, max, ltb, if◌then◌else◌, get_or, ceil_div, M, pure, fail, ◌>>=◌,
  ◌>>◌, try_catch, for_each, is_blank, str_eq, trim, strip_bearer,
}
use crowdtic.Platform.{
  Platform, entries, Key, active_key, admitted_key, waiting_room_kv, word, key, count, stored,
  Reply, nil, array, Replies, end, item,
}
use crowdtic.Env.{Env, is_set, setting, default_ttl_sec, default_batch}
use crowdtic.Redis.{enabled, cmd, as_count}
use crowdtic.Http.{
  Request, Response, Field, given, other, Parsed, null_body, fields, Ticket, error, queue_empty,
  throttled, admitted, Header, retry_after, retry_after_infinity, json,
}
use crowdtic.Bucket.Step.{Delay, after_ms, forever}
use crowdtic.Bucket.Consume.{token_bucket_consume}
use crowdtic.RateLimit.{printed}
use crowdtic.Token.Base64.{Crypto}
use crowdtic.Token.Sign.{Signed, sign_queue_token}
use crowdtic.Room.Queue.{as_entries, sort_entries}
use crowdtic.Room.Pool.{maybe_shuffle_pool, as_member}
use crowdtic.Room.Status.{read_watermark, allow_jti}

-- `req.headers.get("x-admit-secret") ?? …replace(/^Bearer\s+/i, "") ?? ""`
abbrev bearer_of : Option String → String
bearer_of none = ""
bearer_of (some h) = strip_bearer h

abbrev pub presented_secret : Request → String
presented_secret req = get_or (req.header "x-admit-secret") (bearer_of (req.header "authorization"))

abbrev pub is_authorised : Env → Request → Bool
is_authorised env req =
    not (is_set env.admit_secret) || str_eq (presented_secret req) (get_or env.admit_secret "")

-- `body.batch ? Math.max(1, Math.min(DEFAULT_BATCH, body.batch)) : 0`
abbrev pub batch_of : Option ℕ → ℕ
batch_of none = 0
batch_of (some b) = if b == 0 then 0 else max 1 (min default_batch b)

abbrev pub wanted : ℕ → ℕ → ℕ
wanted batch active_size =
    if ltb 0 batch then min batch active_size else min default_batch active_size

-- `retryAfterMs ? { "Retry-After": … } : undefined`
abbrev pub retry_header : Option Delay → List Header
retry_header none = []
retry_header (some forever) = retry_after_infinity ∷ []
retry_header (some (after_ms n)) = if n == 0 then [] else retry_after (ceil_div n 1000) ∷ []

-- Every second element of a flat reply.
unfoldable pub every_second : Replies → List String
every_second end = []
every_second (item r end) = as_member r ∷ []
every_second (item r (item s rs)) = as_member r ∷ every_second rs

unfoldable pub first_of_pair : Reply → String
first_of_pair (array (item r rs)) = as_member r
first_of_pair _ = "undefined"

unfoldable pub firsts : Replies → List String
firsts end = []
firsts (item r rs) = first_of_pair r ∷ firsts rs

-- ZPOPMIN's reply is a list of pairs or a flat list.
unfoldable pub of_items : Replies → List String
of_items end = []
of_items (item (array pair) rs) = firsts (item (array pair) rs)
of_items (item r rs) = every_second (item r rs)

unfoldable pub as_popped : Reply → List String
unfolding of_items every_second firsts first_of_pair
as_popped (array rs) = of_items rs
as_popped _ = []

-- The reply to ZPOPMIN 1 in the loop: `none` breaks it.
abbrev as_one : Reply → Option (List String)
as_one nil = none
as_one (array end) = none
as_one (array (item (array (item m rest)) rs)) = some (as_member m ∷ [])
as_one (array (item r rs)) = some (as_member r ∷ [])
as_one _ = some []

-- The body's event and batch under their `try`: a null body, or an event that is no text, throws
-- before either is set.
abbrev pub from_fields : Option (Field String) → Option ℕ → String × ℕ
from_fields none batch = ("", batch_of batch)
from_fields (some (given s)) batch = (trim s, batch_of batch)
from_fields (some (other b)) batch = ("", 0)

abbrev pub from_body : Option Parsed → String × ℕ
from_body none = ("", 0)
from_body (some null_body) = ("", 0)
from_body (some (fields body)) = from_fields body.event_id body.batch

-- The body's event first, then the query's.
abbrev pub event_of : Request → String
event_of req =
    let event_id = (from_body req.body).0 in
    if is_blank event_id then trim (get_or (req.query "event_id") "") else event_id

abbrev pub add_watermark : Option ℕ → ℕ → Option ℕ
add_watermark none n = none
add_watermark (some w) n = some (w + n)

module _ {W : Type 0} (p : Platform W) (env : Env) where
  unfoldable pub active_size_of : String → M W ℕ
  active_size_of event_id =
      if enabled env
      then (do
        card ← cmd p env (word "ZCARD" ∷ key (active_key event_id) ∷ [])
        pure (get_or (as_count card) 0))
      else (do
        raw ← p.kv_get waiting_room_kv (active_key event_id)
        pure (length (get_or (as_entries raw) [])))

  unfoldable pub append_popped :
      List String → Option (List String) → M W (List String) → M W (List String)
  append_popped users none rest = pure users
  append_popped users (some one) rest = do more ← rest; pure (one ++ more)

  unfoldable pub pop_each : Key → ℕ → M W (List String)
  unfolding append_popped
  pop_each k zero = pure []
  pop_each k (suc n) =
      let rest = pop_each k n in
      do one ← cmd p env (word "ZPOPMIN" ∷ key k ∷ count 1 ∷ []); append_popped [] (as_one one) rest

  unfoldable pub pop_redis : Key → ℕ → M W (List String)
  unfolding pop_each
  pop_redis k want =
      try_catch
        (do popped ← cmd p env (word "ZPOPMIN" ∷ key k ∷ count want ∷ []); pure (as_popped popped))
        (λ _. pop_each k want)

  unfoldable pub pop_kv : Key → ℕ → M W (List String)
  pop_kv k want = do
    raw ← p.kv_get waiting_room_kv k
    let queue = sort_entries (get_or (as_entries raw) [])
    p.kv_put waiting_room_kv k (entries (drop want queue)) none
    pure (map (λ e. e.m) (take want queue))

  unfoldable pub pop_users : String → ℕ → M W (List String)
  unfolding pop_redis
  pop_users event_id want =
      if enabled env
      then pop_redis (active_key event_id) want
      else pop_kv (active_key event_id) want

  unfoldable pub save_watermark : String → Option ℕ → M W (Unit {0})
  save_watermark event_id w =
      if enabled env
      then (do
        _ ← cmd p env (
            word "SET"
            ∷ key (admitted_key event_id)
            ∷ stored (printed w)
            ∷ word "EX"
            ∷ count 3600
            ∷ [])
        pure tt)
      else p.kv_put waiting_room_kv (admitted_key event_id) (printed w) (some 3600)

  unfoldable pub bump_watermark : String → ℕ → M W (Option ℕ)
  unfolding save_watermark
  bump_watermark event_id n = do
    cur ← read_watermark p env event_id
    save_watermark event_id (add_watermark cur n)
    pure (add_watermark cur n)

module _ {W : Type 0} (c : Crypto) (p : Platform W) (env : Env) where
  -- `new Date(exp * 1000).toISOString()` throws on NaN.
  unfoldable pub ticket_of : String → String → Signed → Option ℕ → Option ℕ → M W Ticket
  ticket_of event_id uid signed (some ttl) (some exp) = do
    allow_jti p env event_id signed.jti (ttl + 10)
    pure (record { user_id = uid; token = signed.token; expires_at = exp * 1000; jti = signed.jti })
  ticket_of event_id uid signed _ _ = fail "RangeError"

  unfoldable pub issue_ticket : String → String → M W Ticket
  unfolding ticket_of
  issue_ticket event_id uid = do
    let ttl = setting env.jwt_ttl_sec default_ttl_sec
    signed ← sign_queue_token c p env.jwt_secret (record {
      user_id = uid;
      event_id = event_id;
      ttl_sec = ttl;
      issuer = env.jwt_issuer;
      audience = env.jwt_audience;
    })
    ticket_of event_id uid signed ttl signed.exp

  -- After the bucket has granted `want`.
  unfoldable pub admit_users : String → ℕ → Option ℕ → Option String → M W Response
  admit_users event_id want remaining origin = do
    users ← pop_users p env event_id want
    watermark ← bump_watermark p env event_id (length users)
    tokens ← for_each (issue_ticket event_id) users
    pure (
        json
          (admitted (record {
            event_id = event_id;
            admitted = length users;
            watermark = watermark;
            remaining_tokens = remaining;
            tokens = tokens;
          }))
          200 [] origin)

  unfoldable pub admit_event : String → ℕ → Option String → M W Response
  admit_event event_id batch origin = do
    _ ← maybe_shuffle_pool p env event_id
    active_size ← active_size_of p env event_id
    if active_size == 0 then pure (json (queue_empty event_id) 200 [] origin) else (do
      bucket ← token_bucket_consume p env event_id (wanted batch active_size)
      if bucket.allowed
          then admit_users event_id (wanted batch active_size) bucket.remaining origin
          else pure (
              json (throttled bucket.retry_after bucket.remaining active_size) 429
                (retry_header bucket.retry_after) origin))

  unfoldable pub handle_admit : Request → Option String → M W Response
  handle_admit req origin =
      if not (is_authorised env req)
      then pure (json (error "unauthorized") 401 [] origin)
      else if is_blank (event_of req)
      then pure (json (error "event_id required") 400 [] origin)
      else admit_event (event_of req) (from_body req.body).1 origin

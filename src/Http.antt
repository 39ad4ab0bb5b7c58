-- ===== src/Http.antt =====
-- Requests and responses of the worker (edge/waiting-room/src/index.ts): the CORS helpers, `json`,
-- and a constructor for each shape of body that the handlers send.
use crowdtic.Base.{ℕ, String, Bool, Option, none, List, get_or}
use crowdtic.Bucket.Step.{Delay}
use crowdtic.Token.Verify.{Verdict}

-- A field of a parsed JSON body that is neither missing nor null: a text, or something else, which
-- may count as true.
pub data Field (A : Type 0) : Type 0 where
  given : A → Field A
  other : Bool → Field A

-- The fields that a handler reads of a parsed JSON body. A batch is a natural number or missing.
pub record JsonBody : Type 0 where
  pub event_id : Option (Field String)
  pub user_id : Option (Field String)
  pub fingerprint : Option (Field String)
  pub turnstile_token : Option String
  pub batch : Option ℕ
  pub token : Option (Field (List ℕ))

-- The parsed value: null, or a value with fields.
pub data Parsed : Type 0 where
  null_body : Parsed
  fields : JsonBody → Parsed

abbrev pub empty_body : JsonBody
empty_body = record {
  event_id = none;
  user_id = none;
  fingerprint = none;
  turnstile_token = none;
  batch = none;
  token = none;
}

-- `query` is `url.searchParams.get`, `header` is `req.headers.get`; `body` is `none` if `req.json()`
-- throws.
pub record Request : Type 0 where
  pub method : String
  pub pathname : String
  pub query : String → Option String
  pub header : String → Option String
  pub body : Option Parsed

pub data Phase : Type 0 where
  pre_sale_pool active_queue not_in_queue : Phase

pub data QueueName : Type 0 where
  pool active nowhere : QueueName

pub record JoinReply : Type 0 where
  pub event_id : String
  pub user_id : String
  pub phase : Phase
  pub position : Option ℕ
  pub pool_size : ℕ
  pub estimated_wait_sec : Option ℕ
  pub poll_interval_ms : ℕ

-- `expires_at` in milliseconds: the instant whose ISO text is sent.
pub record StatusReply : Type 0 where
  pub event_id : String
  pub user_id : String
  pub phase : Phase
  pub queue : QueueName
  pub position : Option ℕ
  pub pool_size : ℕ
  pub active_size : ℕ
  pub admitted_watermark : Option ℕ
  pub estimated_wait_sec : Option ℕ
  pub token : Option (List ℕ)
  pub token_expires_at : Option ℕ
  pub poll_interval_ms : ℕ

pub record Ticket : Type 0 where
  pub user_id : String
  pub token : List ℕ
  pub expires_at : ℕ
  pub jti : String

pub record AdmitReply : Type 0 where
  pub event_id : String
  pub admitted : ℕ
  pub watermark : Option ℕ
  pub remaining_tokens : Option ℕ
  pub tokens : List Ticket

pub data Health : Type 0 where
  reachable : Bool → Health
  failing : String → Health
  kv_fallback : Health

pub data Body : Type 0 where
  no_body : Body
  error : String → Body
  rate_limited : String → ℕ → Body
  turnstile_failed : Option String → Body
  joined : JoinReply → Body
  reported : StatusReply → Body
  queue_empty : String → Body
  throttled : Option Delay → Option ℕ → ℕ → Body
  admitted : AdmitReply → Body
  healthy : ℕ → Health → Body
  verdict : Verdict → Body

pub data Header : Type 0 where
  retry_after : ℕ → Header
  retry_after_infinity no_store : Header

pub record Response : Type 0 where
  pub status : ℕ
  pub body : Body
  pub extra : List Header
  pub allow_origin : String

-- `corsHeaders`: the other headers are constants.
abbrev pub cors_origin : Option String → String
cors_origin origin = get_or origin "*"

abbrev pub json : Body → ℕ → List Header → Option String → Response
json body status extra origin = record {
  status = status;
  body = body;
  extra = extra;
  allow_origin = cors_origin origin;
}

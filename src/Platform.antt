-- ===== src/Platform.antt =====
-- The world outside the worker (edge/waiting-room/src/index.ts): clock, random numbers, the KV
-- namespaces, the Redis REST service and the Turnstile service. All of it is a parameter.
use crowdtic.Base.{ℕ, String, Bool, Option, List, M}

-- An element `{ m, s }` of a stored queue. Scores are counted in units of 2⁻⁵³, the step of
-- `Math.random()`, so that a sum of milliseconds and a fraction is a whole number.
pub record Entry : Type 0 where
  pub m : String
  pub s : ℕ

-- `BucketState`. Tokens are counted in thousandths; `none` is NaN, which JSON stores as null.
pub record BucketState : Type 0 where
  pub tokens : Option ℕ
  pub last_ms : ℕ

-- What the code stores under a key, by the value whose JSON or decimal text is stored.
pub data Value : Type 0 where
  text : String → Value
  number : ℕ → Value
  entries : List Entry → Value
  bucket : BucketState → Value
  meta : Option String → Value

-- The keys, `rl:ip:${id}:${n}` and so on. The texts of two different keys differ: an id stands
-- between a fixed prefix and either a fixed suffix or a part with no colon (a number, a UUID).
pub data Key : Type 0 where
  rl_ip rl_fp : String → ℕ → Key
  bucket_key pool_key active_key admitted_key meta_key : String → Key
  jti_key : String → String → Key
  waiting_index : Key

-- An argument of a Redis command.
pub data Arg : Type 0 where
  word : String → Arg
  key : Key → Arg
  score : ℕ → Arg
  count : ℕ → Arg
  stored : Value → Arg

-- The `result` of a Redis reply.
mutual
  pub data Reply : Type 0 where
    nil : Reply
    int : ℕ → Reply
    negative : ℕ → Reply
    bulk : Value → Reply
    array : Replies → Reply
    hash : Option String → Reply

  pub data Replies : Type 0 where
    end : Replies
    item : Reply → Replies → Replies

-- What `fetch` brings from the REST service.
pub data Http : Type 0 where
  replied : Reply → Http
  refused : ℕ → String → Http
  unreachable : String → Http

pub data Namespace : Type 0 where
  waiting_room_kv rate_limit_kv : Namespace

pub record SiteVerify : Type 0 where
  pub success : Bool
  pub error_codes : String

-- Operations on the world. `math_random` gives the numerator over 2⁵³, `kv_put` takes the
-- `expirationTtl`, `kv_list` lists the keys that begin with `waiting:pool:{`, and `is_header_value`
-- says whether `headers.set` takes a text: it throws on a character above U+00FF.
pub record Platform (W : Type 0) : Type 0 where
  pub date_now : W → ℕ × W
  pub math_random : W → ℕ × W
  pub random_uuid : W → String × W
  pub kv_get : Namespace → Key → M W (Option Value)
  pub kv_put : Namespace → Key → Value → Option ℕ → M W (Unit {0})
  pub kv_list : Namespace → M W (List Key)
  pub fetch_redis : String → String → List Arg → W → Http × W
  pub fetch_pipeline : String → String → List (List Arg) → W → Http × W
  pub fetch_site_verify : String → String → String → M W SiteVerify
  pub date_parse : String → Option ℕ
  pub is_header_value : String → Bool

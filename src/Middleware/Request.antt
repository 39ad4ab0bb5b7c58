-- ===== src/Middleware/Request.antt =====
-- What edge/middleware.ts reads of a request: `isApiRequest`, `extractEventId`, `extractToken`.
use crowdtic.Base.{
  String, Bool, ◌||◌, ◌&&◌, Option, none, some, List, [], ◌∷◌, if◌then◌else◌, get_or, is_blank,
  str_eq, trim, codes, is_prefix, is_infix, segments, bearer_token,
}

pub record NextRequest : Type 0 where
  pub pathname : String
  pub search : String
  pub query : String → Option String
  pub header : String → Option String
  pub cookie : String → Option String

-- The settings that the middleware reads of `process.env`.
pub record ProcessEnv : Type 0 where
  pub jwt_secret : Option String
  pub queue_jwt_secret : Option String
  pub jwt_issuer : Option String
  pub jwt_audience : Option String
  pub upstash_redis_rest_url : Option String
  pub upstash_redis_rest_token : Option String

unfoldable pub is_api_request : NextRequest → Bool
unfolding is_infix is_prefix codes
is_api_request req =
    is_infix (codes "application/json") (codes (get_or (req.header "accept") ""))
    || is_prefix (codes "/api/") (codes req.pathname)
    || str_eq (get_or (req.header "sec-fetch-mode") "") "cors"

-- `if (s) return s`, else what follows.
abbrev pub or_else : Option String → Option String → Option String
or_else none next = next
or_else (some s) next = if is_blank s then next else some s

-- `a ?? b`
abbrev pub coalesce : Option String → Option String → Option String
coalesce none b = b
coalesce (some a) b = some a

-- The event that a path names: /checkout/:event or /api/hold/:event.
unfoldable pub event_of_path : List String → Option String
event_of_path (first ∷ second ∷ []) = if str_eq first "checkout" then some second else none
event_of_path (first ∷ second ∷ third ∷ rest) =
    if str_eq first "checkout"
    then some second
    else if str_eq first "api" && str_eq second "hold"
    then some third
    else none
event_of_path _ = none

unfoldable pub extract_event_id : NextRequest → Option String
unfolding event_of_path segments
extract_event_id req = coalesce (event_of_path (segments req.pathname)) (
    or_else (coalesce (req.query "event_id") (req.query "eventId"))
      (or_else (req.header "x-event-id") none))

abbrev pub trimmed : Option String → Option String
trimmed none = none
trimmed (some s) = if is_blank s then none else some (trim s)

abbrev bearer_of : Option String → Option String
bearer_of none = none
bearer_of (some h) = bearer_token h

unfoldable pub extract_token : NextRequest → Option String
unfolding bearer_token trim
extract_token req = coalesce (bearer_of (req.header "authorization")) (
    coalesce (trimmed (req.header "x-queue-token")) (
      coalesce (trimmed (req.cookie "queue_token"))
        (trimmed (coalesce (req.query "queue_token") (req.query "token")))))

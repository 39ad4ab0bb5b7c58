-- ===== src/Room/Router.antt =====
-- `fetch`: which handler a request reaches.
use crowdtic.Base.{
  ℕ, String, Bool, true, false, not, ◌&&◌, ◌||◌, Option, none, some, List, [], if◌then◌else◌,
  get_or, M, pure, fail, ◌>>=◌, lift, try_catch, is_blank, str_eq, strip_slashes, is_empty,
}
use crowdtic.Platform.{Platform, Reply, nil, bulk, text, word}
use mathlib.Core.List.{◌∷◌}
use crowdtic.Env.{Env}
use crowdtic.Redis.{enabled, cmd}
use crowdtic.Http.{
  Request, Response, Field, given, other, Parsed, null_body, fields, empty_body, no_body, error,
  healthy, Health, reachable, failing, kv_fallback, verdict, json,
}
use crowdtic.Token.Base64.{Crypto}
use crowdtic.Token.Verify.{Verdict, valid, invalid, verify_queue_token, type_error}
use crowdtic.Room.Join.{handle_join}
use crowdtic.Room.Status.{handle_status}
use crowdtic.Room.Admit.{handle_admit}

-- `url.pathname.replace(/\/+$/, "") || "/"`
abbrev pub route_of : Request → String
route_of req = let path = strip_slashes req.pathname in if is_blank path then "/" else path

-- `pong === "PONG" || !!pong`
abbrev is_pong : Reply → Bool
is_pong nil = false
is_pong (bulk (text s)) = not (is_blank s)
is_pong _ = true

abbrev pub status_of_verdict : Verdict → ℕ
status_of_verdict (valid payload) = 200
status_of_verdict (invalid reason) = 401

abbrev pub misconfigured : Option String → Response
misconfigured origin = json (error "server misconfigured: JWT_SECRET missing") 500 [] origin

abbrev as_field : Option String → Option (Field String)
as_field none = none
as_field (some s) = some (given s)

-- The request that the legacy GET builds for `handleJoin`.
abbrev pub legacy_join : Request → Request
legacy_join req = record req {
  method = "POST";
  body = some (
      fields (record empty_body {
        event_id = as_field (req.query "event_id");
        user_id = as_field (req.query "user_id");
        fingerprint = as_field (req.header "x-fingerprint");
      }));
}

module _ {W : Type 0} (c : Crypto) (p : Platform W) (env : Env) where
  unfoldable pub ping : M W Health
  ping =
      if enabled env
      then try_catch (do pong ← cmd p env (word "PING" ∷ []); pure (reachable (is_pong pong)))
          (λ e. pure (failing e))
      else pure kv_fallback

  unfoldable pub health : Option String → M W Response
  unfolding ping
  health origin = do
    redis ← ping
    time ← lift p.date_now
    pure (json (healthy time redis) 200 [] origin)

  -- `if (!token)`, and a token that is no text has no `split`.
  unfoldable pub verify_token : Option (Field (List ℕ)) → Option String → M W Response
  verify_token none origin = pure (json (error "token required") 400 [] origin)
  verify_token (some (other true)) origin = fail type_error
  verify_token (some (other false)) origin = pure (json (error "token required") 400 [] origin)
  verify_token (some (given token)) origin =
      if is_empty token then pure (json (error "token required") 400 [] origin) else (do
        v ←
            verify_queue_token c p env.jwt_secret token
              (record { issuer = env.jwt_issuer; audience = env.jwt_audience; leeway_sec = 5 })
        pure (json (verdict v) (status_of_verdict v) [] origin))

  -- A null body cannot be taken apart.
  unfoldable pub verify_body : Option Parsed → Option String → M W Response
  unfolding verify_token
  verify_body none origin = pure (json (error "token required") 400 [] origin)
  verify_body (some null_body) origin = fail type_error
  verify_body (some (fields body)) origin = verify_token body.token origin

  unfoldable pub verify : Request → Option String → M W Response
  unfolding verify_body
  verify req origin = verify_body req.body origin

  unfoldable pub legacy : Request → Option String → M W Response
  legacy req origin =
      if is_blank (get_or (req.query "event_id") "") || is_blank (get_or (req.query "user_id") "")
      then pure (json (error "use POST /queue/join with {event_id, user_id}") 400 [] origin)
      else if is_blank env.jwt_secret
      then pure (misconfigured origin)
      else handle_join p env (legacy_join req) origin

  -- By the path and the method, GET or POST or neither.
  unfoldable pub dispatch : Request → Option String → String → Bool → Bool → M W Response
  unfolding health verify legacy
  dispatch req origin path is_get is_post =
      if str_eq req.method "OPTIONS"
      then pure (json no_body 204 [] origin)
      else if str_eq path "/health" && is_get
      then health origin
      else if (str_eq path "/queue/join" || str_eq path "/waiting-room") && is_post
      then (if is_blank env.jwt_secret
          then pure (misconfigured origin)
          else handle_join p env req origin)
      else if str_eq path "/waiting-room" && is_get
      then legacy req origin
      else if str_eq path "/queue/status" && is_get
      then handle_status c p env req origin
      else if str_eq path "/queue/admit" && is_post
      then (if is_blank env.jwt_secret
          then pure (misconfigured origin)
          else handle_admit c p env req origin)
      else if str_eq path "/queue/verify" && is_post
      then verify req origin
      else pure (json (error "not_found") 404 [] origin)

  unfoldable pub fetch : Request → M W Response
  unfolding dispatch
  fetch req =
      dispatch req (req.header "origin") (route_of req) (str_eq req.method "GET")
        (str_eq req.method "POST")

-- ===== src/Tests/Fetches.antt =====
-- The theorems on whole requests, and on Redis, at concrete inputs.
use crowdtic.Base.{
  ℕ, ◌≡◌, refl, true, false, Option, none, some, List, [], ◌∷◌, ◌==◌, if◌then◌else◌, str_eq, ok,
  throw, strip_slashes,
}
use crowdtic.Platform.{active_key}
use crowdtic.Env.{Env}
use crowdtic.Redis.{enabled}
use crowdtic.Http.{Request, empty_body, fields, given}
use crowdtic.Token.Base64.{Crypto, b64url_decode_to_bytes, from_url, padding_of}
use crowdtic.Token.Split.{split_dots}
use crowdtic.Token.Verify.{invalid_base64}
use crowdtic.Room.Join.{Place, join_redis}
use crowdtic.Room.Router.{fetch, route_of}
use crowdtic.Room.Sets.{url_of, token_of}
use crowdtic.Room.Entered.{IsEntered, join_redis-IsEntered}
use crowdtic.Room.Thrown.{fetch_throws}
use crowdtic.Tests.Coder.{crypto}
use crowdtic.Tests.Data.{env, known}
use crowdtic.Tests.Shelf.{Shelf, shelf, shelf-laws}

abbrev pub redis_env : Env
redis_env = record env {
  upstash_redis_rest_url = some "https://redis";
  upstash_redis_rest_token = some "t";
}

pub redis_on : enabled redis_env ≡ true
redis_on = refl

-- One user waits in the active queue.
abbrev one_waits : Shelf
one_waits = (active_key "concert", "ana", 5) ∷ []

join_redis-IsEntered_example :
    (place : Place) × (join_redis shelf redis_env "concert" "ana" false 1700000000000 7 one_waits).0
      ≡ ok place
    × IsEntered redis_env redis_on
        (shelf-laws (url_of redis_env) (token_of redis_env))
        "concert"
        "ana"
        false
        1700000000000
        7
        ((shelf-laws (url_of redis_env) (token_of redis_env)).card_of one_waits
          (active_key "concert"))
        one_waits
        (join_redis shelf redis_env "concert" "ana" false 1700000000000 7 one_waits).1
join_redis-IsEntered_example =
    join_redis-IsEntered redis_env redis_on (shelf-laws (url_of redis_env) (token_of redis_env))
      "concert" "ana" false 1700000000000 7 one_waits

abbrev status_request : Request
status_request = record {
  method = "GET";
  pathname = "/queue/status";
  query = λ name.
      if str_eq name "event_id"
      then some "concert"
      else if str_eq name "user_id"
      then some "ana"
      else none;
  header = λ name. none;
  body = none;
}

-- A decoder that refuses a text of one character and its padding.
strict_atob : List ℕ → Option (List ℕ)
strict_atob (w ∷ x ∷ y ∷ z ∷ []) =
    if x == b'=' then none else (crypto known).atob (w ∷ x ∷ y ∷ z ∷ [])
strict_atob s = (crypto known).atob s

abbrev strict : Crypto
strict = record (crypto known) { atob = strict_atob }

abbrev odd : List ℕ
odd = b'a' ∷ b'.' ∷ b'b' ∷ b'.' ∷ b'c' ∷ []

abbrev verify_request : Request
verify_request = record status_request {
  method = "POST";
  pathname = "/queue/verify/";
  body = some (fields (record empty_body { token = some (given odd) }));
}

verify_request-route : route_of verify_request ≡ "/queue/verify"
unfolding strip_slashes
verify_request-route = refl

verify_request-parts :
    split_dots (b'a' ∷ b'.' ∷ b'b' ∷ b'.' ∷ b'c' ∷ [])
    ≡ (b'a' ∷ []) ∷ (b'b' ∷ []) ∷ (b'c' ∷ []) ∷ []
unfolding split_dots
verify_request-parts = refl

strict-refuses : b64url_decode_to_bytes strict (b'c' ∷ []) ≡ none
unfolding b64url_decode_to_bytes from_url padding_of strict_atob
strict-refuses = refl

fetch_throws_example :
    (fetch strict shelf redis_env verify_request one_waits).0 ≡ throw invalid_base64
fetch_throws_example =
    fetch_throws strict shelf redis_env verify_request
      (record empty_body { token = some (given odd) }) odd (b'a' ∷ []) (b'b' ∷ []) (b'c' ∷ [])
      one_waits refl refl verify_request-route refl refl verify_request-parts refl strict-refuses

-- ===== src/Tests/Shop.antt =====
-- A browser with a clock and its storage, where the worker cannot be reached, and a visit.
use crowdtic.Base.{ℕ, String, Option, none, some, List, [], ◌∷◌, str_eq, if◌then◌else◌}
use crowdtic.Token.Claims.{Payload}
use crowdtic.Middleware.Request.{NextRequest, ProcessEnv}
use crowdtic.Storefront.State.{Event, Seat, Hold, Home, event_fallback, home}
use crowdtic.Storefront.Browser.{Browser, unreachable}
use crowdtic.Storefront.Join.{dev_secret, dev_claims}

pub record Shop : Type 0 where
  pub clock : ℕ
  pub kept_token : Option (List ℕ)
  pub kept_user : Option String

unfoldable pub browser : Browser Shop
browser = record {
  date_now = λ w. (w.clock, w);
  random_uuid = λ w. ("0a1b", w);
  random_text = λ w. ("x9", w);
  user_agent = "Mozilla/5.0";
  stored_token = λ w. w.kept_token;
  stored_user = λ w. w.kept_user;
  store_token = λ t w. record w { kept_token = some t };
  store_user = λ u w. record w { kept_user = some u };
  drop_token = λ w. record w { kept_token = none };
  post_join = λ body w. (unreachable, w);
}

abbrev pub visit : Shop
visit = record { clock = 1700000000000; kept_token = none; kept_user = some "ana" }

abbrev pub event : Event
event = event_fallback "2026-06-01T12:00:00Z"

abbrev pub seat_1 : Seat
seat_1 = record { id = "s1"; seat_number = "1"; status = "AVAILABLE"; category_id = "vip" }

abbrev pub seat_2 : Seat
seat_2 = record { id = "s2"; seat_number = "2"; status = "AVAILABLE"; category_id = "vip" }

-- The page with a token and one seat picked.
abbrev pub with_seat : Home
with_seat = record home { selected = "concert"; token = 1 ∷ []; picked = "s1" ∷ [] }

abbrev pub choosing : Home
choosing = record home { selected = "concert" }

abbrev pub granted : Hold
granted = record { hold_id = some "h7"; ttl_sec = 600; expires_at = "later" }

abbrev pub forged : Payload
forged = dev_claims "ana" "concert" 1700000000 "0a1b"

abbrev pub dev_env : ProcessEnv
dev_env = record {
  jwt_secret = some dev_secret;
  queue_jwt_secret = none;
  jwt_issuer = none;
  jwt_audience = none;
  upstash_redis_rest_url = none;
  upstash_redis_rest_token = none;
}

abbrev pub forged_token : String
forged_token =
    "YWxnOkhTMjU2LHR5cDpKV1Qs.aXNzOnRpa2V0LXdhaXRpbmctcm9vbSxhdWQ6dGlrZXQtY2hlY2tvdXQsaWF0OgAsbmJmOgAsZXhwOlgsanRpOjBhMWIsdXNlcl9pZDphbmEsZXZlbnRfaWQ6Y29uY2VydCw.lA"

abbrev pub forged_request : NextRequest
forged_request = record {
  pathname = "/checkout/concert";
  search = "";
  query = λ name. if str_eq name "token" then some forged_token else none;
  header = λ name. none;
  cookie = λ name. none;
}

-- ===== src/Storefront/Browser.antt =====
-- The browser, as far as the pages use it: clock, random ids, `localStorage` and `fetch`.
use crowdtic.Base.{ℕ, String, Option, List}
use crowdtic.Http.{JoinReply}

-- The body of the page's POST /queue/join.
pub record JoinRequest : Type 0 where
  pub event_id : String
  pub user_id : String
  pub fingerprint : String

-- A throw of `fetch` or `res.json()`, a status that is not ok, or an answer with its `token`.
pub data JoinAnswer : Type 0 where
  unreachable : JoinAnswer
  refused : ℕ → JoinAnswer
  joined : JoinReply → Option (List ℕ) → JoinAnswer

-- `user_agent` is cut at 24 already; `random_text` is `Math.random().toString(36).slice(2, 6)`.
pub record Browser (W : Type 0) : Type 0 where
  pub date_now : W → ℕ × W
  pub random_uuid : W → String × W
  pub random_text : W → String × W
  pub user_agent : String
  pub stored_token : W → Option (List ℕ)
  pub stored_user : W → Option String
  pub store_token : List ℕ → W → W
  pub store_user : String → W → W
  pub drop_token : W → W
  pub post_join : JoinRequest → W → JoinAnswer × W

-- ===== src/Room/Sets.antt =====
-- What the handlers rely on of Redis: sorted sets, each member with one score. Reads change nothing,
-- a write changes one member of one set, and an empty set has no member.
use crowdtic.Base.{
  ℕ, String, ◌≡◌, ◌≢◌, ◌⊎◌, refl, true, Option, none, some, List, [], ◌∷◌, get_or, ok,
}
use crowdtic.Platform.{Platform, Key, Arg, word, key, score, Reply, int, replied}
use crowdtic.Env.{Env}
use crowdtic.Redis.{enabled, cmd, of_http}

pub record RedisLaws {W : Type 0} (p : Platform W) (url token : String) : Type 0 where
  pub score_of : W → Key → String → Option ℕ
  pub card_of : W → Key → ℕ
  pub rank_of : W → Key → String → Reply
  pub zadd : Key → ℕ → String → W → W
  pub zrem : Key → String → W → W
  pub sadd : Key → String → W → W
  pub zadd_lem :
      (k : Key) (s : ℕ) (m : String) (w : W)
      → (n : ℕ) × p.fetch_redis url token (word "ZADD" ∷ key k ∷ score s ∷ word m ∷ []) w
          ≡ (replied (int n), zadd k s m w)
  pub zrem_lem :
      (k : Key) (m : String) (w : W)
      → (n : ℕ) × p.fetch_redis url token (word "ZREM" ∷ key k ∷ word m ∷ []) w
          ≡ (replied (int n), zrem k m w)
  pub sadd_lem :
      (k : Key) (m : String) (w : W)
      → (n : ℕ) × p.fetch_redis url token (word "SADD" ∷ key k ∷ word m ∷ []) w
          ≡ (replied (int n), sadd k m w)
  pub zcard_lem :
      (k : Key) (w : W)
      → p.fetch_redis url token (word "ZCARD" ∷ key k ∷ []) w ≡ (replied (int (card_of w k)), w)
  pub zrank_lem :
      (k : Key) (m : String) (w : W)
      → p.fetch_redis url token (word "ZRANK" ∷ key k ∷ word m ∷ []) w
        ≡ (replied (rank_of w k m), w)
  pub score-zadd_self :
      (k : Key) (s : ℕ) (m : String) (w : W) → score_of (zadd k s m w) k m ≡ some s
  pub score-zadd_other :
      (k j : Key) (s : ℕ) (m n : String) (w : W)
      → (k ≢ j) ⊎ (m ≢ n)
      → score_of (zadd k s m w) j n ≡ score_of w j n
  pub score-zrem_self : (k : Key) (m : String) (w : W) → score_of (zrem k m w) k m ≡ none
  pub score-zrem_other :
      (k j : Key) (m n : String) (w : W)
      → (k ≢ j) ⊎ (m ≢ n)
      → score_of (zrem k m w) j n ≡ score_of w j n
  pub score-sadd : (k : Key) (m : String) (w : W) → score_of (sadd k m w) ≡ score_of w
  pub card-sadd : (k : Key) (m : String) (w : W) → card_of (sadd k m w) ≡ card_of w
  pub score-card : (k : Key) (m : String) (w : W) → card_of w k ≡ 0 → score_of w k m ≡ none

abbrev pub url_of : Env → String
url_of env = get_or env.upstash_redis_rest_url ""

abbrev pub token_of : Env → String
token_of env = get_or env.upstash_redis_rest_token ""

module _ {W : Type 0} (p : Platform W) (env : Env) (on : enabled env ≡ true) where
  -- A command that is replied to returns the reply.
  pub cmd_lem :
      (args : List Arg) (r : Reply) (w w' : W)
      → p.fetch_redis (url_of env) (token_of env) args w ≡ (replied r, w')
      → cmd p env args w ≡ (ok r, w')
  unfolding cmd of_http
  cmd_lem args r w w' e = rw (on, e) refl

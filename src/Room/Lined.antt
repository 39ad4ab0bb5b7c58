-- ===== src/Room/Lined.antt =====
-- What an admission and a shuffle rely on of Redis: a sorted set is a line of members with their
-- scores, lowest first, and a text key has one value. A write changes one key only, and neither the
-- clock nor the ids are in Redis.
use crowdtic.Base.{
  ℕ, ◌<◌, String, str_eq, if◌then◌else◌, ◌≡◌, ◌≢◌, true, false, Option, none, some, List, [], ◌∷◌,
  map, take, drop, Bool, length, All, ◌++◌,
}
use crowdtic.Platform.{
  Platform, Key, Arg, word, key, count, stored, score, int, Value, text, Reply, nil, bulk, array,
  Replies, end, item, replied,
}
use crowdtic.Room.Queue.{bump_index}

abbrev pub Line : Type 0
Line = List (String × ℕ)

abbrev pub line_names : Line → List String
line_names = map (λ e. e.0)

-- The reply to ZPOPMIN, with `shown` for a score: pairs, or members and scores in turn.
unfoldable pub popped_reply : (ℕ → Reply) → Bool → Line → Replies
popped_reply shown nested [] = end
popped_reply shown true ((m, s) ∷ l) =
    item (array (item (bulk (text m)) (item (shown s) end))) (popped_reply shown true l)
popped_reply shown false ((m, s) ∷ l) =
    item (bulk (text m)) (item (shown s) (popped_reply shown false l))

-- The reply to GET.
abbrev pub value_reply : Option Value → Reply
value_reply none = nil
value_reply (some v) = bulk v

pub record LineLaws {W : Type 0} (p : Platform W) (url token : String) : Type 0 where
  pub members : W → Key → Line
  pub value : W → Key → Option Value
  pub shown : ℕ → Reply
  pub nested : Bool
  pub zpopmin : Key → ℕ → W → W
  pub set : Key → Value → ℕ → W → W
  pub zpopmin_lem :
      (k : Key) (n : ℕ) (w : W)
      → p.fetch_redis url token (word "ZPOPMIN" ∷ key k ∷ count n ∷ []) w
        ≡ (replied (array (popped_reply shown nested (take n (members w k)))), zpopmin k n w)
  pub get_lem :
      (k : Key) (w : W)
      → p.fetch_redis url token (word "GET" ∷ key k ∷ []) w ≡ (replied (value_reply (value w k)), w)
  pub set_lem :
      (k : Key) (v : Value) (ttl : ℕ) (w : W)
      → 0 < ttl
      → (r : Reply) × p.fetch_redis url token
            (word "SET" ∷ key k ∷ stored v ∷ word "EX" ∷ count ttl ∷ [])
            w
          ≡ (replied r, set k v ttl w)
  pub members-zpopmin_self :
      (k : Key) (n : ℕ) (w : W) → members (zpopmin k n w) k ≡ drop n (members w k)
  pub members-zpopmin_other :
      (k j : Key) (n : ℕ) (w : W) → k ≢ j → members (zpopmin k n w) j ≡ members w j
  pub value-zpopmin : (k j : Key) (n : ℕ) (w : W) → k ≢ j → value (zpopmin k n w) j ≡ value w j
  pub value-set_self : (k : Key) (v : Value) (ttl : ℕ) (w : W) → value (set k v ttl w) k ≡ some v
  pub value-set_other :
      (k j : Key) (v : Value) (ttl : ℕ) (w : W) → k ≢ j → value (set k v ttl w) j ≡ value w j
  pub members-set :
      (k j : Key) (v : Value) (ttl : ℕ) (w : W) → k ≢ j → members (set k v ttl w) j ≡ members w j
  pub members-date_now : (w : W) → members (p.date_now w).1 ≡ members w
  pub members-random_uuid : (w : W) → members (p.random_uuid w).1 ≡ members w
  pub value-date_now : (w : W) → value (p.date_now w).1 ≡ value w
  pub value-random_uuid : (w : W) → value (p.random_uuid w).1 ≡ value w

-- The reply to ZRANGE without scores.
unfoldable pub names_reply : Line → Replies
names_reply [] = end
names_reply ((m, s) ∷ l) = item (bulk (text m)) (names_reply l)

-- The place of a member in a line, from 0.
unfoldable pub line_place : String → Line → Option ℕ
line_place user [] = none
line_place user ((m, s) ∷ l) =
    let rest = line_place user l in if str_eq m user then some 0 else bump_index rest

-- The reply to ZRANK.
abbrev pub rank_reply : Option ℕ → Reply
rank_reply none = nil
rank_reply (some i) = int i

-- What the status relies on besides: places and lengths of lines.
pub record RankLaws {W : Type 0} (p : Platform W) (url token : String)
    (redis : LineLaws p url token) : Type 0 where
  pub zrank_lem :
      (k : Key) (m : String) (w : W)
      → p.fetch_redis url token (word "ZRANK" ∷ key k ∷ word m ∷ []) w
        ≡ (replied (rank_reply (line_place m (redis.members w k))), w)
  pub zsize_lem :
      (k : Key) (w : W)
      → p.fetch_redis url token (word "ZCARD" ∷ key k ∷ []) w
        ≡ (replied (int (length (redis.members w k))), w)

-- Commands one after the other, their replies dropped.
unfoldable pub run : {W : Type 0} → Platform W → String → String → List (List Arg) → W → W
run p url token [] w = w
run p url token (args ∷ batch) w = run p url token batch (p.fetch_redis url token args w).1

-- What the shuffle of the pool relies on besides: a new member with a score above all others stands
-- last in its line, and a pipeline is run in its order.
pub record PoolLaws {W : Type 0} (p : Platform W) (url token : String)
    (redis : LineLaws p url token) : Type 0 where
  pub zadd : Key → ℕ → String → W → W
  pub del : Key → W → W
  pub zcard_lem :
      (k : Key) (w : W)
      → p.fetch_redis url token (word "ZCARD" ∷ key k ∷ []) w
        ≡ (replied (int (length (redis.members w k))), w)
  pub zrange_lem :
      (k : Key) (w : W)
      → p.fetch_redis url token (word "ZRANGE" ∷ key k ∷ word "0" ∷ word "-1" ∷ []) w
        ≡ (replied (array (names_reply (redis.members w k))), w)
  pub zadd_lem :
      (k : Key) (s : ℕ) (m : String) (w : W)
      → (n : ℕ) × p.fetch_redis url token (word "ZADD" ∷ key k ∷ score s ∷ word m ∷ []) w
          ≡ (replied (int n), zadd k s m w)
  pub del_lem :
      (k : Key) (w : W)
      → (n : ℕ) × p.fetch_redis url token (word "DEL" ∷ key k ∷ []) w ≡ (replied (int n), del k w)
  pub pipeline_lem :
      (batch : List (List Arg)) (w : W)
      → (r : Reply) × p.fetch_pipeline url token batch w ≡ (replied r, run p url token batch w)
  pub members-zadd_last :
      (k : Key) (s : ℕ) (m : String) (w : W)
      → All (λ e. (e.1 < s) × (e.0 ≢ m)) (redis.members w k)
      → redis.members (zadd k s m w) k ≡ redis.members w k ++ (m, s) ∷ []
  pub members-zadd_other :
      (k j : Key) (s : ℕ) (m : String) (w : W)
      → k ≢ j
      → redis.members (zadd k s m w) j ≡ redis.members w j
  pub members-del_self : (k : Key) (w : W) → redis.members (del k w) k ≡ []
  pub members-del_other :
      (k j : Key) (w : W) → k ≢ j → redis.members (del k w) j ≡ redis.members w j
  pub members-math_random : (w : W) → redis.members (p.math_random w).1 ≡ redis.members w

-- ===== src/Room/Join.antt =====
-- `handleJoin`: the checks on a request to join, and the entry into the pool or the active queue.
use crowdtic.Base.{
  ℕ, ◌+◌, String, Bool, true, false, not, ◌||◌, Option, none, some, List, [], ◌∷◌, ◌++◌, length,
  ltb, leb, if◌then◌else◌, get_or, ceil_div, M, pure, fail, ◌>>=◌, ◌>>◌, lift, try_catch, is_blank,
  is_empty, trim, length_utf16, before_comma,
}
use crowdtic.Platform.{
  Platform, Entry, Value, entries, pool_key, active_key, waiting_index, waiting_room_kv, Reply,
  word, key, score,
}
use crowdtic.Env.{Env, setting, default_rl_ip, default_rl_fp, default_rate_per_sec}
use crowdtic.Redis.{enabled, cmd, as_count}
use crowdtic.Http.{
  Request, Response, Field, given, other, Parsed, null_body, fields, JoinReply, pre_sale_pool,
  active_queue, error, rate_limited, turnstile_failed, joined, retry_after, no_store, json,
}
use crowdtic.Token.Verify.{type_error}
use crowdtic.RateLimit.{Hit, ip, fp, hit_rate_limit}
use crowdtic.Room.Guards.{Check, passed, failed, verify_turnstile, get_event_meta}
use crowdtic.Room.Queue.{as_entries, ms, has, find_index, without, sort_entries}

-- Where a joining user stands: `position` counts from 0.
pub record Place : Type 0 where
  pub position : Option ℕ
  pub size : ℕ

-- `(field ?? "").trim()`
trimmed_field : {W : Type 0} → Option (Field String) → M W String
trimmed_field none = pure ""
trimmed_field (some (given s)) = pure (trim s)
trimmed_field (some (other b)) = fail type_error

-- `body.fingerprint ?? fingerprint`
abbrev or_header : Option (Field String) → Option String → Option (Field String)
or_header none none = none
or_header none (some h) = some (given h)
or_header (some f) h = some f

abbrev forwarded_ip : Option String → String
forwarded_ip none = "0.0.0.0"
forwarded_ip (some s) = trim (before_comma s)

abbrev pub ip_of : Request → String
ip_of req = get_or (req.header "cf-connecting-ip") (forwarded_ip (req.header "x-forwarded-for"))

abbrev pub is_pre_sale : ℕ → Option ℕ → Bool
is_pre_sale now none = false
is_pre_sale now (some t) = ltb now t

-- `isPreSale ? Math.random() : nowMs + Math.random()`
abbrev pub join_score : Bool → ℕ → ℕ → ℕ
join_score pre now r = if pre then r else ms now + r

abbrev pub one_based : Option ℕ → Option ℕ
one_based none = none
one_based (some i) = some (i + 1)

abbrev pub wait_of : Option ℕ → Option ℕ
wait_of none = none
wait_of (some i) = some (ceil_div i default_rate_per_sec)

abbrev pub poll_of : Option ℕ → ℕ
poll_of none = 5000
poll_of (some i) = if leb i 50 then 1000 else if leb i 500 then 2000 else 5000

unfoldable pub join_reply : String → String → Bool → Place → JoinReply
join_reply event_id user_id pre place = record {
  event_id = event_id;
  user_id = user_id;
  phase = if pre then pre_sale_pool else active_queue;
  position = one_based place.position;
  pool_size = place.size;
  estimated_wait_sec = wait_of (one_based place.position);
  poll_interval_ms = poll_of (one_based place.position);
}

-- `if (!existing) arr.push({ m: userId, s: score })`
abbrev pub push_pool : String → ℕ → List Entry → List Entry
push_pool user_id s arr = if has user_id arr then arr else arr ++ record { m = user_id; s = s } ∷ []

module _ {W : Type 0} (p : Platform W) (env : Env) where
  unfoldable pub redis_active : String → String → ℕ → M W Place
  redis_active event_id user_id tail_score = do
    _ ← cmd p env (word "ZADD" ∷ key (active_key event_id) ∷ score tail_score ∷ word user_id ∷ [])
    _ ← cmd p env (word "ZREM" ∷ key (pool_key event_id) ∷ word user_id ∷ [])
    size ← cmd p env (word "ZCARD" ∷ key (active_key event_id) ∷ [])
    rank ← cmd p env (word "ZRANK" ∷ key (active_key event_id) ∷ word user_id ∷ [])
    pure (record { position = as_count rank; size = get_or (as_count size) 0 })

  unfoldable pub redis_pool : String → String → ℕ → M W Place
  redis_pool event_id user_id s = do
    _ ← cmd p env (word "ZADD" ∷ key (pool_key event_id) ∷ score s ∷ word user_id ∷ [])
    size ← cmd p env (word "ZCARD" ∷ key (pool_key event_id) ∷ [])
    rank ← cmd p env (word "ZRANK" ∷ key (pool_key event_id) ∷ word user_id ∷ [])
    pure (record { position = as_count rank; size = get_or (as_count size) 0 })

  -- The SADD is not awaited and its errors are dropped.
  unfoldable pub join_redis : String → String → Bool → ℕ → ℕ → M W Place
  unfolding redis_active redis_pool
  join_redis event_id user_id pre now_ms s = do
    _ ←
        try_catch (cmd p env (word "SADD" ∷ key waiting_index ∷ word event_id ∷ []))
          (λ _. pure Reply.nil)
    card ← cmd p env (word "ZCARD" ∷ key (active_key event_id) ∷ [])
    let active_len = get_or (as_count card) 0
    if ltb 0 active_len || not pre
        then redis_active event_id user_id
            (if ltb 0 active_len then ms (now_ms + active_len) else s)
        else redis_pool event_id user_id s

  -- `if (!arr.find(…)) arr.push({ m: userId, s: Date.now() + arr.length })`
  unfoldable pub push_active : String → List Entry → M W (List Entry)
  push_active user_id arr = if has user_id arr then pure arr else (do
    now ← lift p.date_now
    pure (arr ++ record { m = user_id; s = ms (now + length arr) } ∷ []))

  unfoldable pub leave_pool : String → String → Option (List Entry) → M W (Unit {0})
  leave_pool event_id user_id none = pure tt
  leave_pool event_id user_id (some pool) =
      p.kv_put waiting_room_kv (pool_key event_id) (entries (without user_id pool)) none

  unfoldable pub kv_active : String → String → List Entry → M W Place
  unfolding push_active leave_pool
  kv_active event_id user_id active = do
    pushed ← push_active user_id active
    let arr = sort_entries pushed
    p.kv_put waiting_room_kv (active_key event_id) (entries arr) none
    pool_raw ← p.kv_get waiting_room_kv (pool_key event_id)
    leave_pool event_id user_id (as_entries pool_raw)
    pure (record { position = find_index user_id arr; size = length arr })

  -- From the pool as it was read on.
  unfoldable pub kv_pool_read : String → String → ℕ → Option Value → M W Place
  kv_pool_read event_id user_id s raw = do
    let arr = sort_entries (push_pool user_id s (get_or (as_entries raw) []))
    p.kv_put waiting_room_kv (pool_key event_id) (entries arr) none
    pure (record { position = find_index user_id arr; size = length arr })

  unfoldable pub kv_pool : String → String → ℕ → M W Place
  unfolding kv_pool_read
  kv_pool event_id user_id s = do
    raw ← p.kv_get waiting_room_kv (pool_key event_id)
    kv_pool_read event_id user_id s raw

  unfoldable pub join_kv : String → String → Bool → ℕ → M W Place
  join_kv event_id user_id pre s = do
    active_raw ← p.kv_get waiting_room_kv (active_key event_id)
    let active = get_or (as_entries active_raw) []
    if not (is_empty active) || not pre
        then kv_active event_id user_id active
        else kv_pool event_id user_id s

  -- From the Turnstile check's result on.
  unfoldable pub enter : String → String → Option String → Check → M W Response
  enter event_id user_id origin (failed reason) =
      pure (json (turnstile_failed reason) 403 [] origin)
  enter event_id user_id origin passed = do
    on_sale_at ← get_event_meta p env event_id
    now_ms ← lift p.date_now
    r ← lift p.math_random
    let pre = is_pre_sale now_ms on_sale_at
    let s = join_score pre now_ms r
    place ←
        if enabled env
        then join_redis event_id user_id pre now_ms s
        else join_kv event_id user_id pre s
    pure (json (joined (join_reply event_id user_id pre place)) 200 (no_store ∷ []) origin)

  abbrev hit_fingerprint : String → M W Hit
  hit_fingerprint print =
      if is_blank print
      then pure (record { allowed = true; remaining = some 999; reset_sec = 60 })
      else hit_rate_limit p env fp print (setting env.rate_limit_fp_per_min default_rl_fp)

  -- From the trimmed texts on.
  unfoldable pub join_checked :
      Request → Option String → Option String → String → String → String → M W Response
  unfolding enter
  join_checked req origin turnstile_token event_id user_id print =
      if is_blank event_id || is_blank user_id
      then pure (json (error "event_id and user_id required") 400 [] origin)
      else if ltb (length_utf16 event_id) 8 || ltb (length_utf16 user_id) 8
      then pure (json (error "invalid id format") 400 [] origin)
      else (do
        rl_ip ←
            hit_rate_limit p env ip (ip_of req) (setting env.rate_limit_ip_per_min default_rl_ip)
        rl_fp ← hit_fingerprint print
        if not rl_ip.allowed
            then pure (
                json (rate_limited "ip" rl_ip.reset_sec) 429 (retry_after rl_ip.reset_sec ∷ [])
                  origin)
            else if not rl_fp.allowed
            then pure (
                json (rate_limited "fingerprint" rl_fp.reset_sec) 429
                  (retry_after rl_fp.reset_sec ∷ []) origin)
            else (do
              check ← verify_turnstile p env turnstile_token (ip_of req)
              enter event_id user_id origin check))

  -- A null body, or an id that is no text, makes the handler throw.
  unfoldable pub join_body : Request → Option String → Parsed → M W Response
  unfolding join_checked trimmed_field
  join_body req origin null_body = fail type_error
  join_body req origin (fields body) = do
    event_id ← trimmed_field body.event_id
    user_id ← trimmed_field body.user_id
    print ← trimmed_field (or_header body.fingerprint (req.header "x-fingerprint"))
    join_checked req origin body.turnstile_token event_id user_id print

  unfoldable pub handle_join : Request → Option String → M W Response
  unfolding join_body
  handle_join req origin = elim req.body [
    | none ↦ pure (json (error "invalid_json") 400 [] origin)
    | some body ↦ join_body req origin body
  ]

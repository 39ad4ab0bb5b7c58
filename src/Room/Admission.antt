-- ===== src/Room/Admission.antt =====
-- An admission after the bucket has granted it, without Redis.
use crowdtic.Base.{
  ℕ, ◌+◌, ◌≡◌, refl, ap, ◌∙◌, sym, String, false, Option, some, List, [], map, length, length-map,
  All, Outcome, ok, throw, get_or, ◌≤◌, ◌<◌, ◌∷◌, is_blank, for_each, continue-then_pure,
}
use crowdtic.Platform.{
  Platform, Entry, Value, number, entries, pool_key, active_key, admitted_key, waiting_room_kv,
}
use crowdtic.Env.{Env, setting, default_ttl_sec}
use crowdtic.Redis.{enabled}
use crowdtic.RateLimit.{counter}
use crowdtic.Http.{Ticket, Response, admitted, json}
use crowdtic.Token.Base64.{Crypto}
use crowdtic.Room.Queue.{as_entries}
use crowdtic.Room.Status.{read_watermark}
use crowdtic.Room.Admit.{bump_watermark, issue_ticket, admit_users}
use crowdtic.Room.Popped.{users_of, popped, kept, pop_users_lem}
use crowdtic.Room.Tickets.{
  IsTicket, SameQueues, for_each-AreIssued, for_each-SameQueues, for_each-throws,
}
use crowdtic.Room.Store.{
  KvLaws, kv_put_hour, queue_at, value_at, value-put_self, pool-put_active, pool-put_admitted,
  active-put_admitted, admitted-put_active,
}

abbrev as_queue : Option Value → List Entry
as_queue v = get_or (as_entries v) []

-- The answer to an admission of `n` users.
abbrev pub admission_reply :
    String → ℕ → Option ℕ → Option String → List Ticket → ℕ → Outcome Response
admission_reply event_id wm remaining origin tickets n = ok (
    json
      (admitted (record {
        event_id = event_id;
        admitted = n;
        watermark = some (wm + n);
        remaining_tokens = remaining;
        tokens = tickets;
      }))
      200 [] origin)

module _ {W : Type 0} (c : Crypto) {p : Platform W} (kv : KvLaws p) (env : Env)
    (off : enabled env ≡ false) where
  bump_watermark_lem :
      (event_id : String) (n wm : ℕ) (w : W)
      → counter (value_at kv w (admitted_key event_id)) ≡ some wm
      → bump_watermark p env event_id n w
        ≡ (ok (some (wm + n)), kv.put waiting_room_kv (admitted_key event_id) (number (wm + n)) w)
  unfolding bump_watermark read_watermark
  bump_watermark_lem event_id n wm w e = rw (off, kv.kv_get_lem, e, kv_put_hour kv)

  -- What an admission of `n` from the active queue has done.
  pub record IsAdmission (event_id : String) (n wm ttl : ℕ) (remaining : Option ℕ)
      (origin : Option String) (w : W) (r : Outcome Response × W) : Type 0 where
    pub tickets : List Ticket
    pub returned : r.0 ≡ admission_reply event_id wm remaining origin tickets (length tickets)
    pub named :
        map (λ t. t.user_id) tickets ≡ users_of (popped n (queue_at kv w (active_key event_id)))
    pub sealed : All (IsTicket c p env event_id ttl) tickets
    pub left : queue_at kv r.1 (active_key event_id) ≡ kept n (queue_at kv w (active_key event_id))
    pub pool : queue_at kv r.1 (pool_key event_id) ≡ queue_at kv w (pool_key event_id)
    pub watermark : counter (value_at kv r.1 (admitted_key event_id)) ≡ some (wm + length tickets)

  -- What an admission of `n` does to the queues, whether tokens are answered or not.
  pub record HasMoved (event_id : String) (n wm : ℕ) (w w' : W) : Type 0 where
    pub left : queue_at kv w' (active_key event_id) ≡ kept n (queue_at kv w (active_key event_id))
    pub pool : queue_at kv w' (pool_key event_id) ≡ queue_at kv w (pool_key event_id)
    pub watermark :
        counter (value_at kv w' (admitted_key event_id))
        ≡ some (wm + length (users_of (popped n (queue_at kv w (active_key event_id)))))

  -- The world at which the first token is made.
  abbrev pub before_tokens : String → ℕ → ℕ → W → W
  before_tokens event_id n wm w =
      let queue = queue_at kv w (active_key event_id) in
      kv.put waiting_room_kv (admitted_key event_id)
        (number (wm + length (users_of (popped n queue))))
        (kv.put waiting_room_kv (active_key event_id) (entries (kept n queue)) w)

  bumped_lem :
      (event_id : String) (n wm : ℕ) (w : W)
      → counter (value_at kv w (admitted_key event_id)) ≡ some wm
      → let queue = queue_at kv w (active_key event_id) in
        bump_watermark p env event_id
          (length (users_of (popped n queue)))
          (kv.put waiting_room_kv (active_key event_id) (entries (kept n queue)) w)
        ≡ (ok (some (wm + length (users_of (popped n queue)))), before_tokens event_id n wm w)
  bumped_lem event_id n wm w readable =
      bump_watermark_lem event_id _ wm _
        (ap counter (admitted-put_active kv event_id _ w) ∙ readable)

  before_tokens-HasMoved :
      (event_id : String) (n wm : ℕ) (w w' : W)
      → SameQueues c kv env off event_id (before_tokens event_id n wm w) w'
      → HasMoved event_id n wm w w'
  before_tokens-HasMoved event_id n wm w w' same =
      let queue = queue_at kv w (active_key event_id) in
      let w₁ = kv.put waiting_room_kv (active_key event_id) (entries (kept n queue)) w in
      record {
        left = ap as_queue (
            same.active
            ∙ active-put_admitted kv event_id _ w₁
            ∙ value-put_self kv event_id _ w (active_key event_id));
        pool =
            ap as_queue
              (same.pool ∙ pool-put_admitted kv event_id _ w₁ ∙ pool-put_active kv event_id _ w);
        watermark =
            ap counter (same.admitted ∙ value-put_self kv event_id _ w₁ (admitted_key event_id));
      }

  pub admit_users-HasMoved :
      (event_id : String) (n wm ttl : ℕ) (remaining : Option ℕ) (origin : Option String) (w : W)
      → setting env.jwt_ttl_sec default_ttl_sec ≡ some ttl
      → counter (value_at kv w (admitted_key event_id)) ≡ some wm
      → HasMoved event_id n wm w (admit_users c p env event_id n remaining origin w).1
  unfolding admit_users
  admit_users-HasMoved event_id n wm ttl remaining origin w lasts readable =
      let users = users_of (popped n (queue_at kv w (active_key event_id))) in
      let w₂ = before_tokens event_id n wm w in
      let issued = for_each (issue_ticket c p env event_id) users w₂ in
      rw
        (
          pop_users_lem kv env off event_id n w,
          bumped_lem event_id n wm w readable,
          continue-then_pure issued.0 issued.1 (λ tokens.
              json
                (admitted (record {
                  event_id = event_id;
                  admitted = length users;
                  watermark = some (wm + length users);
                  remaining_tokens = remaining;
                  tokens = tokens;
                }))
                200 [] origin),
        )
        (before_tokens-HasMoved event_id n wm w issued.1
          (for_each-SameQueues c kv env off event_id users ttl w₂ lasts))

  -- Without Redis, with a secret, a readable watermark and a lifetime of tokens of at least 50
  -- seconds, an admission that the bucket has granted answers with one token for each of the `n`
  -- users with the lowest scores, signed for that user and the event, takes exactly these off the
  -- active queue, leaves the pool alone, and raises the watermark by their number.
  pub admit_users-IsAdmission :
      (event_id : String) (n wm ttl : ℕ) (remaining : Option ℕ) (origin : Option String) (w : W)
      → setting env.jwt_ttl_sec default_ttl_sec ≡ some ttl
      → is_blank env.jwt_secret ≡ false
      → 50 ≤ ttl
      → counter (value_at kv w (admitted_key event_id)) ≡ some wm
      → IsAdmission event_id n wm ttl remaining origin w
          (admit_users c p env event_id n remaining origin w)
  unfolding admit_users
  admit_users-IsAdmission event_id n wm ttl remaining origin w lasts keyed long readable =
      let users = users_of (popped n (queue_at kv w (active_key event_id))) in
      let w₂ = before_tokens event_id n wm w in
      let issued = for_each-AreIssued c kv env off event_id users ttl w₂ lasts keyed long in
      let size : length users ≡ length issued.tickets =
        ap length (sym issued.named) ∙ length-map (λ t. t.user_id) issued.tickets in
      let moved = before_tokens-HasMoved event_id n wm w _ issued.same in
      rw
        (
          pop_users_lem kv env off event_id n w,
          bumped_lem event_id n wm w readable,
          issued.returned,
        )
        (record {
          tickets = issued.tickets;
          returned = ap (admission_reply event_id wm remaining origin issued.tickets) size;
          named = issued.named;
          sealed = issued.sealed;
          left = moved.left;
          pool = moved.pool;
          watermark = moved.watermark ∙ ap (λ m. some (wm + m)) size;
        })

  admit_users-throws :
      (event_id : String) (n wm ttl : ℕ) (remaining : Option ℕ) (origin : Option String) (w : W)
      → setting env.jwt_ttl_sec default_ttl_sec ≡ some ttl
      → is_blank env.jwt_secret ≡ false
      → ttl < 50
      → counter (value_at kv w (admitted_key event_id)) ≡ some wm
      → (first : Entry) (rest : List Entry)
      → popped n (queue_at kv w (active_key event_id)) ≡ first ∷ rest
      → (x : String) × ((admit_users c p env event_id n remaining origin w).0 ≡ throw x)
  unfolding admit_users
  admit_users-throws event_id n wm ttl remaining origin w lasts keyed short readable first rest
        taken =
      let w₂ = before_tokens event_id n wm w in
      let (x, thrown) =
        for_each-throws c kv env off event_id first.m (users_of rest) ttl w₂ lasts keyed short in
      let all : (for_each (issue_ticket c p env event_id)
            (users_of (popped n (queue_at kv w (active_key event_id)))) w₂).0
          ≡ throw x =
        ap (λ l. (for_each (issue_ticket c p env event_id) (users_of l) w₂).0) taken ∙ thrown in
      (x, rw (pop_users_lem kv env off event_id n w, bumped_lem event_id n wm w readable, all) refl)

  -- Without Redis, with a secret, a readable watermark and a lifetime of tokens below 50 seconds,
  -- as it is by default, an admission that takes somebody throws and answers no token, and has by
  -- then taken the users with the lowest scores off the active queue and raised the watermark by
  -- their number; the pool is untouched.
  pub admit_users-strands :
      (event_id : String) (n wm ttl : ℕ) (remaining : Option ℕ) (origin : Option String) (w : W)
      → setting env.jwt_ttl_sec default_ttl_sec ≡ some ttl
      → is_blank env.jwt_secret ≡ false
      → ttl < 50
      → counter (value_at kv w (admitted_key event_id)) ≡ some wm
      → (first : Entry) (rest : List Entry)
      → popped n (queue_at kv w (active_key event_id)) ≡ first ∷ rest
      → (x : String) × ((admit_users c p env event_id n remaining origin w).0 ≡ throw x)
        × HasMoved event_id n wm w (admit_users c p env event_id n remaining origin w).1
  admit_users-strands event_id n wm ttl remaining origin w lasts keyed short readable first rest
        taken =
      let (x, thrown) =
        admit_users-throws event_id n wm ttl remaining origin w lasts keyed short readable first
          rest taken in
      (x, thrown, admit_users-HasMoved event_id n wm ttl remaining origin w lasts readable)

-- ===== src/Room/Served.antt =====
-- An admission after the bucket has granted it, with Redis.
use crowdtic.Base.{
  is_blank, ℕ, ◌+◌, ◌*◌, ◌<◌, ◌≡◌, refl, ap, ◌∙◌, sym, String, Bool, true, false, Option, none,
  some, List, [], ◌∷◌, map, length, length-map, take, drop, All, Outcome, ok, for_each, arith,
}
use crowdtic.Platform.{
  Platform, Key, Value, text, number, pool_key, active_key, admitted_key, jti_key, Reply, array,
  word, key, stored, count,
}
use crowdtic.Env.{Env, setting, default_ttl_sec}
use crowdtic.Redis.{enabled, cmd, as_stored}
use crowdtic.RateLimit.{counter}
use crowdtic.Http.{Ticket, Response}
use crowdtic.Token.Base64.{Crypto}
use crowdtic.Token.Sign.{sign_queue_token, hmac_key}
use crowdtic.Token.Window.{second_of, jti_after, token_at}
use crowdtic.Room.Status.{read_watermark, allow_jti}
use crowdtic.Room.Admit.{
  pop_users, pop_redis, bump_watermark, save_watermark, issue_ticket, admit_users, as_popped,
  of_items, firsts, first_of_pair, every_second, ticket_of,
}
use crowdtic.Room.Sets.{url_of, token_of, cmd_lem}
use crowdtic.Room.Tickets.{IsTicket, grant_for}
use crowdtic.Room.Admission.{admission_reply}
use crowdtic.Room.Lined.{Line, line_names, popped_reply, value_reply, LineLaws}

-- Both forms of ZPOPMIN's reply are read as the members popped.
firsts-popped_reply :
    (shown : ℕ → Reply) (l : Line) → firsts (popped_reply shown true l) ≡ line_names l
unfolding firsts first_of_pair popped_reply
firsts-popped_reply shown [] = refl
firsts-popped_reply shown ((m, s) ∷ l) = ap (λ ms. m ∷ ms) (firsts-popped_reply shown l)

every_second-popped_reply :
    (shown : ℕ → Reply) (l : Line) → every_second (popped_reply shown false l) ≡ line_names l
unfolding every_second popped_reply
every_second-popped_reply shown [] = refl
every_second-popped_reply shown ((m, s) ∷ l) = ap (λ ms. m ∷ ms) (every_second-popped_reply shown l)

as_popped-popped_reply :
    (shown : ℕ → Reply) (nested : Bool) (l : Line)
    → as_popped (array (popped_reply shown nested l)) ≡ line_names l
unfolding as_popped of_items popped_reply
as_popped-popped_reply shown true [] = refl
as_popped-popped_reply shown false [] = refl
as_popped-popped_reply shown true ((m, s) ∷ l) = firsts-popped_reply shown ((m, s) ∷ l)
as_popped-popped_reply shown false ((m, s) ∷ l) = every_second-popped_reply shown ((m, s) ∷ l)

module _ {W : Type 0} (c : Crypto) {p : Platform W} (env : Env) (on : enabled env ≡ true)
    (redis : LineLaws p (url_of env) (token_of env)) (event_id : String) where
  pub set_ok :
      (k : Key) (v : Value) (ttl : ℕ) (w : W)
      → 0 < ttl
      → (r : Reply) × cmd p env (word "SET" ∷ key k ∷ stored v ∷ word "EX" ∷ count ttl ∷ []) w
          ≡ (ok r, redis.set k v ttl w)
  set_ok k v ttl w lasts =
      let (r, e) = redis.set_lem k v ttl w lasts in (r, cmd_lem p env on _ r w _ e)

  pop_users_lem :
      (n : ℕ) (w : W)
      → pop_users p env event_id n w ≡ (
        ok (line_names (take n (redis.members w (active_key event_id)))),
        redis.zpopmin (active_key event_id) n w,
      )
  unfolding pop_users pop_redis
  pop_users_lem n w =
      rw
        (
          on,
          cmd_lem p env on _ _ w _ (redis.zpopmin_lem (active_key event_id) n w),
          as_popped-popped_reply redis.shown redis.nested
              (take n (redis.members w (active_key event_id))),
        )
        refl

  pub counter-value_reply : (o : Option Value) → counter (as_stored (value_reply o)) ≡ counter o
  counter-value_reply none = refl
  counter-value_reply (some v) = refl

  bump_watermark_lem :
      (n wm : ℕ) (w : W)
      → counter (redis.value w (admitted_key event_id)) ≡ some wm
      → bump_watermark p env event_id n w
        ≡ (ok (some (wm + n)), redis.set (admitted_key event_id) (number (wm + n)) 3600 w)
  unfolding bump_watermark read_watermark save_watermark
  bump_watermark_lem n wm w e =
      rw
        (
          on,
          cmd_lem p env on _ _ w _ (redis.get_lem (admitted_key event_id) w),
          counter-value_reply (redis.value w (admitted_key event_id)),
          e,
          (set_ok (admitted_key event_id) (number (wm + n)) 3600 w (omega arith)).1,
        )
        refl

  -- Two worlds with the same sets and the same watermark of the event.
  pub record SameLines (w w' : W) : Type 0 where
    pub pool : redis.members w' (pool_key event_id) ≡ redis.members w (pool_key event_id)
    pub active : redis.members w' (active_key event_id) ≡ redis.members w (active_key event_id)
    pub admitted : redis.value w' (admitted_key event_id) ≡ redis.value w (admitted_key event_id)

  SameLines-trans : {w w' w'' : W} → SameLines w w' → SameLines w' w'' → SameLines w w''
  SameLines-trans a b = record {
    pool = b.pool ∙ a.pool;
    active = b.active ∙ a.active;
    admitted = b.admitted ∙ a.admitted;
  }

  jti-SameLines :
      (jti : String) (ttl : ℕ) (w : W)
      → SameLines w
          (redis.set (jti_key event_id jti) (text "1") ttl (p.random_uuid (p.date_now w).1).1)
  jti-SameLines jti ttl w =
      let drawn = redis.members-random_uuid (p.date_now w).1 ∙ redis.members-date_now w in
      let valued = redis.value-random_uuid (p.date_now w).1 ∙ redis.value-date_now w in
      record {
        pool =
            redis.members-set _ (pool_key event_id) _ ttl _ (λ e. cc)
            ∙ ap (λ f. f (pool_key event_id)) drawn;
        active =
            redis.members-set _ (active_key event_id) _ ttl _ (λ e. cc)
            ∙ ap (λ f. f (active_key event_id)) drawn;
        admitted =
            redis.value-set_other _ (admitted_key event_id) _ ttl _ (λ e. cc)
            ∙ ap (λ f. f (admitted_key event_id)) valued;
      }

  -- One ticket, and the world that its issue leaves.
  record IsIssued (uid : String) (ttl : ℕ) (w : W) (r : Outcome Ticket × W) : Type 0 where
    ticket : Ticket
    returned : r.0 ≡ ok ticket
    named : ticket.user_id ≡ uid
    sealed : IsTicket c p env event_id ttl ticket
    same : SameLines w r.1

  issue_ticket-IsIssued :
      (uid : String) (ttl : ℕ) (w : W)
      → setting env.jwt_ttl_sec default_ttl_sec ≡ some ttl
      → is_blank env.jwt_secret ≡ false
      → IsIssued uid ttl w (issue_ticket c p env event_id uid w)
  unfolding issue_ticket ticket_of sign_queue_token hmac_key allow_jti
  issue_ticket-IsIssued uid ttl w e keyed =
      let jti = jti_after p w in
      let w₁ = (p.random_uuid (p.date_now w).1).1 in
      rw (e, keyed, on, (set_ok (jti_key event_id jti) (text "1") (ttl + 10) w₁ (omega arith)).1)
        (record {
          ticket = record {
            user_id = uid;
            token = token_at c p env.jwt_secret (grant_for env event_id uid) w;
            expires_at = (second_of p w + ttl) * 1000;
            jti = jti;
          };
          returned = rw e refl;
          named = refl;
          sealed = record { at = w; token = refl; jti = refl; expires_at = refl };
          same = jti-SameLines jti (ttl + 10) w;
        })

  -- The tickets of a row of users, in their order.
  record AreIssued (users : List String) (ttl : ℕ) (w : W) (r : Outcome (List Ticket) × W)
      : Type 0 where
    tickets : List Ticket
    returned : r.0 ≡ ok tickets
    named : map (λ t. t.user_id) tickets ≡ users
    sealed : All (IsTicket c p env event_id ttl) tickets
    same : SameLines w r.1

  for_each-AreIssued :
      (users : List String) (ttl : ℕ) (w : W)
      → setting env.jwt_ttl_sec default_ttl_sec ≡ some ttl
      → is_blank env.jwt_secret ≡ false
      → AreIssued users ttl w (for_each (issue_ticket c p env event_id) users w)
  unfolding for_each
  for_each-AreIssued [] ttl w e keyed = record {
    tickets = [];
    returned = refl;
    named = refl;
    sealed = tt;
    same = record { pool = refl; active = refl; admitted = refl };
  }
  for_each-AreIssued (u ∷ users) ttl w e keyed =
      let one = issue_ticket-IsIssued u ttl w e keyed in
      let rest = for_each-AreIssued users ttl (issue_ticket c p env event_id u w).1 e keyed in
      rw (one.returned, rest.returned)
        (record {
          tickets = one.ticket ∷ rest.tickets;
          returned = refl;
          named = cc (one.named, rest.named);
          sealed = (one.sealed, rest.sealed);
          same = SameLines-trans one.same rest.same;
        })

  -- What an admission of `n` from the active set has done.
  pub record IsServed (n wm ttl : ℕ) (remaining : Option ℕ) (origin : Option String) (w : W)
      (r : Outcome Response × W) : Type 0 where
    pub tickets : List Ticket
    pub returned : r.0 ≡ admission_reply event_id wm remaining origin tickets (length tickets)
    pub named :
        map (λ t. t.user_id) tickets ≡ line_names (take n (redis.members w (active_key event_id)))
    pub sealed : All (IsTicket c p env event_id ttl) tickets
    pub left :
        redis.members r.1 (active_key event_id) ≡ drop n (redis.members w (active_key event_id))
    pub pool : redis.members r.1 (pool_key event_id) ≡ redis.members w (pool_key event_id)
    pub watermark : counter (redis.value r.1 (admitted_key event_id)) ≡ some (wm + length tickets)

  -- With Redis, with a secret, a readable lifetime of tokens and a readable watermark, an admission
  -- that the bucket has granted answers with one token for each of the first `n` members of the
  -- active set, in their order and signed for that user and the event, whether the members popped
  -- come with their scores in pairs or in a flat list; it takes exactly these off the set, leaves the
  -- pool alone, and raises the watermark by their number.
  pub admit_users-IsServed :
      (n wm ttl : ℕ) (remaining : Option ℕ) (origin : Option String) (w : W)
      → setting env.jwt_ttl_sec default_ttl_sec ≡ some ttl
      → is_blank env.jwt_secret ≡ false
      → counter (redis.value w (admitted_key event_id)) ≡ some wm
      → IsServed n wm ttl remaining origin w (admit_users c p env event_id n remaining origin w)
  unfolding admit_users
  admit_users-IsServed n wm ttl remaining origin w lasts keyed readable =
      let active = active_key event_id in
      let users = line_names (take n (redis.members w active)) in
      let w₁ = redis.zpopmin active n w in
      let bumped = bump_watermark_lem (length users) wm w₁ (
        ap counter (redis.value-zpopmin active (admitted_key event_id) n w (λ e. cc)) ∙ readable) in
      let w₂ = redis.set (admitted_key event_id) (number (wm + length users)) 3600 w₁ in
      let issued = for_each-AreIssued users ttl w₂ lasts keyed in
      let size : length users ≡ length issued.tickets =
        ap length (sym issued.named) ∙ length-map (λ t. t.user_id) issued.tickets in
      rw (pop_users_lem n w, bumped, issued.returned)
        (record {
          tickets = issued.tickets;
          returned = ap (admission_reply event_id wm remaining origin issued.tickets) size;
          named = issued.named;
          sealed = issued.sealed;
          left =
              issued.same.active
              ∙ redis.members-set _ active _ 3600 w₁ (λ e. cc)
              ∙ redis.members-zpopmin_self active n w;
          pool =
              issued.same.pool
              ∙ redis.members-set _ (pool_key event_id) _ 3600 w₁ (λ e. cc)
              ∙ redis.members-zpopmin_other active (pool_key event_id) n w (λ e. cc);
          watermark =
              ap counter
                (issued.same.admitted ∙ redis.value-set_self (admitted_key event_id) _ 3600 w₁)
              ∙ ap (λ m. some (wm + m)) size;
        })

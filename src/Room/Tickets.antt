-- ===== src/Room/Tickets.antt =====
-- The tokens of an admission, without Redis.
use crowdtic.Base.{
  ℕ, ◌+◌, ◌*◌, ◌≡◌, ◌≢◌, refl, ap, ◌∙◌, String, false, some, List, [], ◌∷◌, map, All, Outcome, ok,
  for_each, throw, M, pure, ◌>>=◌, continue, continue-then_pure, is_blank, Bool-cases, inl, inr,
  sym, subst, ltb, arith, ◌≤◌, ◌<◌,
}
use crowdtic.Platform.{
  Platform, text, Key, pool_key, active_key, admitted_key, jti_key, waiting_room_kv,
}
use crowdtic.Env.{Env, setting, default_ttl_sec}
use crowdtic.Redis.{enabled}
use crowdtic.Http.{Ticket}
use crowdtic.Token.Base64.{Crypto}
use crowdtic.Token.Sign.{Grant, sign_queue_token, hmac_key}
use crowdtic.Token.Window.{second_of, jti_after, token_at}
use crowdtic.Room.Status.{allow_jti}
use crowdtic.Room.Admit.{issue_ticket, ticket_of}
use crowdtic.Room.Store.{KvLaws, value_at}

-- What `signQueueToken` is called with for an admitted user.
abbrev pub grant_for : Env → String → String → Grant
grant_for env event_id uid = record {
  user_id = uid;
  event_id = event_id;
  ttl_sec = setting env.jwt_ttl_sec default_ttl_sec;
  issuer = env.jwt_issuer;
  audience = env.jwt_audience;
}

module _ {W : Type 0} (c : Crypto) (p : Platform W) (env : Env) (event_id : String) where
  -- A ticket that carries the token signed for its user at some world on the way.
  pub record IsTicket (ttl : ℕ) (t : Ticket) : Type 0 where
    pub at : W
    pub token : t.token ≡ token_at c p env.jwt_secret (grant_for env event_id t.user_id) at
    pub jti : t.jti ≡ jti_after p at
    pub expires_at : t.expires_at ≡ (second_of p at + ttl) * 1000

module _ {W : Type 0} (c : Crypto) {p : Platform W} (kv : KvLaws p) (env : Env)
    (off : enabled env ≡ false) where
  -- Two worlds with the same queues and the same watermark of an event.
  pub record SameQueues (event_id : String) (w w' : W) : Type 0 where
    pub pool : value_at kv w' (pool_key event_id) ≡ value_at kv w (pool_key event_id)
    pub active : value_at kv w' (active_key event_id) ≡ value_at kv w (active_key event_id)
    pub admitted : value_at kv w' (admitted_key event_id) ≡ value_at kv w (admitted_key event_id)

  SameQueues-trans :
      {event_id : String} {w w' w'' : W}
      → SameQueues event_id w w'
      → SameQueues event_id w' w''
      → SameQueues event_id w w''
  SameQueues-trans a b = record {
    pool = b.pool ∙ a.pool;
    active = b.active ∙ a.active;
    admitted = b.admitted ∙ a.admitted;
  }

  jti-put :
      (event_id jti : String) (k : Key) (w : W)
      → jti_key event_id jti ≢ k
      → value_at kv
          (kv.put waiting_room_kv
            (jti_key event_id jti)
            (text "1")
            (p.random_uuid (p.date_now w).1).1)
          k
        ≡ value_at kv w k
  jti-put event_id jti k w ne =
      kv.lookup-put_ne waiting_room_kv _ k (text "1") _ ne
      ∙ ap (λ f. f waiting_room_kv k)
          (kv.lookup-random_uuid (p.date_now w).1 ∙ kv.lookup-date_now w)

  drawn-SameQueues :
      (event_id : String) (w : W) → SameQueues event_id w (p.random_uuid (p.date_now w).1).1
  drawn-SameQueues event_id w =
      let same = kv.lookup-random_uuid (p.date_now w).1 ∙ kv.lookup-date_now w in
      record {
        pool = ap (λ f. f waiting_room_kv (pool_key event_id)) same;
        active = ap (λ f. f waiting_room_kv (active_key event_id)) same;
        admitted = ap (λ f. f waiting_room_kv (admitted_key event_id)) same;
      }

  jti-SameQueues :
      (event_id jti : String) (w : W)
      → SameQueues event_id w (
          kv.put waiting_room_kv
            (jti_key event_id jti)
            (text "1")
            (p.random_uuid (p.date_now w).1).1)
  jti-SameQueues event_id jti w = record {
    pool = jti-put event_id jti (pool_key event_id) w (λ e. cc);
    active = jti-put event_id jti (active_key event_id) w (λ e. cc);
    admitted = jti-put event_id jti (admitted_key event_id) w (λ e. cc);
  }

  -- One ticket, and the world that its issue leaves.
  pub record IsIssued (event_id uid : String) (ttl : ℕ) (w : W) (r : Outcome Ticket × W)
      : Type 0 where
    pub ticket : Ticket
    pub returned : r.0 ≡ ok ticket
    pub named : ticket.user_id ≡ uid
    pub sealed : IsTicket c p env event_id ttl ticket
    pub same : SameQueues event_id w r.1

  issue_ticket-IsIssued :
      (event_id uid : String) (ttl : ℕ) (w : W)
      → setting env.jwt_ttl_sec default_ttl_sec ≡ some ttl
      → is_blank env.jwt_secret ≡ false
      → 50 ≤ ttl
      → IsIssued event_id uid ttl w (issue_ticket c p env event_id uid w)
  unfolding issue_ticket ticket_of sign_queue_token hmac_key allow_jti
  issue_ticket-IsIssued event_id uid ttl w e keyed long =
      let w₁ = (p.random_uuid (p.date_now w).1).1 in
      let put =
        kv.kv_put_for waiting_room_kv (jti_key event_id (jti_after p w)) (text "1") (ttl + 10) w₁
          (omega (arith, long)) in
      rw (e, keyed, off, put)
        (record {
          ticket = record {
            user_id = uid;
            token = token_at c p env.jwt_secret (grant_for env event_id uid) w;
            expires_at = (second_of p w + ttl) * 1000;
            jti = jti_after p w;
          };
          returned = rw e refl;
          named = refl;
          sealed = record { at = w; token = refl; jti = refl; expires_at = refl };
          same = jti-SameQueues event_id (jti_after p w) w;
        })

  -- The tickets of a row of users, in their order.
  pub record AreIssued (event_id : String) (users : List String) (ttl : ℕ) (w : W)
      (r : Outcome (List Ticket) × W) : Type 0 where
    pub tickets : List Ticket
    pub returned : r.0 ≡ ok tickets
    pub named : map (λ t. t.user_id) tickets ≡ users
    pub sealed : All (IsTicket c p env event_id ttl) tickets
    pub same : SameQueues event_id w r.1

  pub for_each-AreIssued :
      (event_id : String) (users : List String) (ttl : ℕ) (w : W)
      → setting env.jwt_ttl_sec default_ttl_sec ≡ some ttl
      → is_blank env.jwt_secret ≡ false
      → 50 ≤ ttl
      → AreIssued event_id users ttl w (for_each (issue_ticket c p env event_id) users w)
  unfolding for_each
  for_each-AreIssued event_id [] ttl w e keyed long = record {
    tickets = [];
    returned = refl;
    named = refl;
    sealed = tt;
    same = record { pool = refl; active = refl; admitted = refl };
  }
  for_each-AreIssued event_id (u ∷ users) ttl w e keyed long =
      let one = issue_ticket-IsIssued event_id u ttl w e keyed long in
      let rest =
        for_each-AreIssued event_id users ttl (issue_ticket c p env event_id u w).1 e keyed long in
      rw (one.returned, rest.returned)
        (record {
          tickets = one.ticket ∷ rest.tickets;
          returned = refl;
          named = cc (one.named, rest.named);
          sealed = (one.sealed, rest.sealed);
          same = SameQueues-trans one.same rest.same;
        })

  -- Whether a ticket is issued or not, and so for a row of them, the queues stay as they are.
  issue_ticket-SameQueues :
      (event_id uid : String) (ttl : ℕ) (w : W)
      → setting env.jwt_ttl_sec default_ttl_sec ≡ some ttl
      → SameQueues event_id w (issue_ticket c p env event_id uid w).1
  unfolding issue_ticket ticket_of sign_queue_token hmac_key allow_jti
  issue_ticket-SameQueues event_id uid ttl w e =
      let w₁ = (p.random_uuid (p.date_now w).1).1 in
      let k = jti_key event_id (jti_after p w) in
      elim (Bool-cases (is_blank env.jwt_secret)) [
        | inl keyless ↦ rw (e, keyless) (drawn-SameQueues event_id w)
        | inr keyed ↦ elim (Bool-cases (ltb (ttl + 10) 60)) [
          | inl short ↦
              let refused =
                kv.kv_put_short waiting_room_kv k (text "1") (ttl + 10) w₁
                  (ground (arith, short)) in
              rw (e, keyed, off, refused.1) (drawn-SameQueues event_id w)
          | inr long ↦
              let put =
                kv.kv_put_for waiting_room_kv k (text "1") (ttl + 10) w₁ (ground (arith, long)) in
              rw (e, keyed, off, put) (jti-SameQueues event_id (jti_after p w) w)
        ]
      ]

  continued-SameQueues :
      (event_id : String) (r : Outcome Ticket) (m : M W (List Ticket)) (w w₁ : W)
      → SameQueues event_id w w₁
      → SameQueues event_id w₁ (m w₁).1
      → SameQueues event_id w (continue r w₁ (λ y. do ys ← m; pure (y ∷ ys))).1
  continued-SameQueues event_id (throw x) m w w₁ first rest = first
  continued-SameQueues event_id (ok y) m w w₁ first rest =
      subst (λ v. SameQueues event_id w v)
        (sym (continue-then_pure (m w₁).0 (m w₁).1 (λ ys. y ∷ ys))) (SameQueues-trans first rest)

  pub for_each-SameQueues :
      (event_id : String) (users : List String) (ttl : ℕ) (w : W)
      → setting env.jwt_ttl_sec default_ttl_sec ≡ some ttl
      → SameQueues event_id w (for_each (issue_ticket c p env event_id) users w).1
  unfolding for_each
  for_each-SameQueues event_id [] ttl w e = record { pool = refl; active = refl; admitted = refl }
  for_each-SameQueues event_id (u ∷ users) ttl w e =
      let w₁ = (issue_ticket c p env event_id u w).1 in
      continued-SameQueues event_id (issue_ticket c p env event_id u w).0
        (for_each (issue_ticket c p env event_id) users) w w₁
        (issue_ticket-SameQueues event_id u ttl w e) (for_each-SameQueues event_id users ttl w₁ e)

  -- With a lifetime below 50 seconds the entry of the first token's id is refused.
  pub for_each-throws :
      (event_id u : String) (users : List String) (ttl : ℕ) (w : W)
      → setting env.jwt_ttl_sec default_ttl_sec ≡ some ttl
      → is_blank env.jwt_secret ≡ false
      → ttl < 50
      → (x : String) × (for_each (issue_ticket c p env event_id) (u ∷ users) w).0 ≡ throw x
  unfolding for_each issue_ticket ticket_of sign_queue_token hmac_key allow_jti
  for_each-throws event_id u users ttl w e keyed short =
      let w₁ = (p.random_uuid (p.date_now w).1).1 in
      let refused =
        kv.kv_put_short waiting_room_kv (jti_key event_id (jti_after p w)) (text "1") (ttl + 10) w₁
          (omega (arith, short)) in
      (refused.0, rw (e, keyed, off, refused.1) refl)

-- ===== src/Room/Standing.antt =====
-- What `handleStatus` tells a user, and when it gives a token, without Redis.
use crowdtic.Base.{
  ℕ, ◌+◌, ◌*◌, ◌≤◌, ◌≡◌, ◌↔◌, inl, inr, refl, ap, ◌∙◌, sym, String, Bool, true, false, Option, none,
  some, List, [], ◌∷◌, ok, throw, Outcome, arith, pure, get_or, continue, caught, Bool-cases,
  is_blank, if◌then◌else◌, lift, fail, ◌>>=◌, ltb,
}
use crowdtic.Platform.{
  Key, Entry, Platform, text, jti_key, Entry, pool_key, active_key, admitted_key, waiting_room_kv,
}
use crowdtic.Env.{Env, setting, default_ttl_sec}
use crowdtic.Redis.{enabled}
use crowdtic.RateLimit.{counter}
use crowdtic.Http.{Response, reported, no_store, json}
use crowdtic.Token.Base64.{Crypto, b64url_decode_to_bytes}
use crowdtic.Token.Claims.{Payload}
use crowdtic.Token.Sign.{sign_queue_token, hmac_key}
use crowdtic.Token.Verify.{
  verify_queue_token, verify_parts, verify_signed, check_payload, no_options, VerifyOptions,
  Verdict, valid, invalid, is_null_payload, read_payload, type_error,
}
use crowdtic.Token.Window.{second_of, token_at}
use crowdtic.Room.Queue.{as_entries, find_index}
use crowdtic.Room.Status.{
  Ranks, read_ranks, ranks_kv, read_watermark, rank_in, size_of, is_admitted, status_reply,
  status_of, issue_if, issue_token, issue_signed, Issued, allow_verified, allow_jti, jti_of,
}
use crowdtic.Room.Tickets.{grant_for, SameQueues, SameQueues}
use crowdtic.Room.Store.{KvLaws, value_at}

-- The place of a user in a stored queue, from 0.
abbrev pub place_in : {W : Type 0} → {p : Platform W} → KvLaws p → W → Key → String → Option ℕ
place_in kv w k user = rank_in user (as_entries (value_at kv w k))

find_index-nobody : (user : String) → find_index user [] ≡ none
unfolding find_index
find_index-nobody user = refl

-- Where nothing is stored, nobody stands.
pub rank_in_lem :
    (user : String) (o : Option (List Entry)) → rank_in user o ≡ find_index user (get_or o [])
rank_in_lem user none = sym (find_index-nobody user)
rank_in_lem user (some es) = refl

-- The user's place in the active queue is within the watermark.
abbrev pub IsWithin : Option ℕ → ℕ → Type 0
IsWithin none wm = ⊥
IsWithin (some i) wm = i + 1 ≤ wm

pub is_admitted_iff : (o : Option ℕ) (wm : ℕ) → (is_admitted o (some wm) ≡ true) ↔ IsWithin o wm
is_admitted_iff none wm = (λ e. ground arith, λ e. absurd e)
is_admitted_iff (some i) wm = ground arith

module _ {W : Type 0} (c : Crypto) {p : Platform W} (kv : KvLaws p) (env : Env)
    (off : enabled env ≡ false) where
  -- The token of a user at a world, and when it ends.
  abbrev pub issued_at : String → String → ℕ → W → Issued
  issued_at event_id user ttl w = record {
    token = token_at c p env.jwt_secret (grant_for env event_id user) w;
    expires_at = (second_of p w + ttl) * 1000;
  }

  -- What the user is told of the two queues.
  abbrev pub ranks_at : String → String → W → Ranks
  ranks_at event_id user w = record {
    pool_rank = place_in kv w (pool_key event_id) user;
    active_rank = place_in kv w (active_key event_id) user;
    pool_size = size_of (as_entries (value_at kv w (pool_key event_id)));
    active_size = size_of (as_entries (value_at kv w (active_key event_id)));
  }

  check_payload-lookup :
      (o : VerifyOptions) (payload : Option Payload) (w : W)
      → kv.lookup (check_payload c p o payload w).1 ≡ kv.lookup w
  unfolding check_payload
  check_payload-lookup o none w = refl
  check_payload-lookup o (some payload) w = kv.lookup-date_now w

  payload-lookup :
      (o : VerifyOptions) (body : List ℕ) (w : W)
      → kv.lookup
          ((if is_null_payload c (b64url_decode_to_bytes c body) (read_payload c body)
              then (do _ ← lift p.date_now; fail type_error)
              else check_payload c p o (read_payload c body))
            w).1
        ≡ kv.lookup w
  payload-lookup o body w =
      elim (Bool-cases (is_null_payload c (b64url_decode_to_bytes c body) (read_payload c body))) [
        | inl null ↦ rw null (kv.lookup-date_now w)
        | inr e ↦ rw e (check_payload-lookup o _ w)
      ]

  verify_signed-lookup :
      (secret : String) (o : VerifyOptions) (signed body : List ℕ) (sig : Option (List ℕ)) (w : W)
      → kv.lookup (verify_signed c p secret o signed body sig w).1 ≡ kv.lookup w
  unfolding verify_signed
  verify_signed-lookup secret o signed body none w = refl
  verify_signed-lookup secret o signed body (some sig) w =
      elim (Bool-cases (c.hmac_verify secret sig (c.utf8 signed))) [
        | inl e ↦ rw e (payload-lookup o body w)
        | inr e ↦ rw e refl
      ]

  verify_parts-lookup :
      (secret : String) (o : VerifyOptions) (parts : List (List ℕ)) (w : W)
      → kv.lookup (verify_parts c p secret o parts w).1 ≡ kv.lookup w
  unfolding verify_parts hmac_key
  verify_parts-lookup secret o (h ∷ b ∷ s ∷ []) w = elim (Bool-cases (is_blank secret)) [
    | inl keyless ↦ rw keyless refl
    | inr keyed ↦ rw keyed (verify_signed-lookup secret o _ b _ w)
  ]
  verify_parts-lookup secret o _ w = refl

  -- A verification reads the clock at most.
  verify_queue_token-lookup :
      (secret : String) (o : VerifyOptions) (token : List ℕ) (w : W)
      → kv.lookup (verify_queue_token c p secret token o w).1 ≡ kv.lookup w
  unfolding verify_queue_token
  verify_queue_token-lookup secret o token w = verify_parts-lookup secret o _ w

  lookup-SameQueues :
      (event_id : String) (w w' : W)
      → kv.lookup w' ≡ kv.lookup w
      → SameQueues c kv env off event_id w w'
  lookup-SameQueues event_id w w' e = record {
    pool = ap (λ f. f waiting_room_kv (pool_key event_id)) e;
    active = ap (λ f. f waiting_room_kv (active_key event_id)) e;
    admitted = ap (λ f. f waiting_room_kv (admitted_key event_id)) e;
  }

  jti-SameQueues :
      (event_id jti : String) (w w' : W)
      → kv.lookup w' ≡ kv.lookup w
      → SameQueues c kv env off event_id w
          (kv.put waiting_room_kv (jti_key event_id jti) (text "1") w')
  jti-SameQueues event_id jti w w' e =
      let was = lookup-SameQueues event_id w w' e in
      record {
        pool = kv.lookup-put_ne waiting_room_kv _ _ _ w' (λ q. cc) ∙ was.pool;
        active = kv.lookup-put_ne waiting_room_kv _ _ _ w' (λ q. cc) ∙ was.active;
        admitted = kv.lookup-put_ne waiting_room_kv _ _ _ w' (λ q. cc) ∙ was.admitted;
      }

  -- The queues of an event after the write of a token's id, if there was one.
  allowed-SameQueues :
      (event_id : String) (ttl : ℕ) (r : Outcome Verdict) (w w' : W)
      → kv.lookup w' ≡ kv.lookup w
      → ((caught
            (continue r w' (allow_verified c p env event_id ttl)).0
            (continue r w' (allow_verified c p env event_id ttl)).1
            (λ _. pure tt)).0
          ≡ ok tt)
        × SameQueues c kv env off event_id w
            (caught
              (continue r w' (allow_verified c p env event_id ttl)).0
              (continue r w' (allow_verified c p env event_id ttl)).1
              (λ _. pure tt)).1
  unfolding allow_verified allow_jti
  allowed-SameQueues event_id ttl (ok (valid payload)) w w' e =
      let k = jti_key event_id (jti_of payload) in
      elim (Bool-cases (ltb (ttl + 10) 60)) [
        | inl short ↦
            let refused =
              kv.kv_put_short waiting_room_kv k (text "1") (ttl + 10) w' (ground (arith, short)) in
            rw (off, refused.1) (refl, lookup-SameQueues event_id w w' e)
        | inr long ↦
            let put =
              kv.kv_put_for waiting_room_kv k (text "1") (ttl + 10) w' (ground (arith, long)) in
            rw (off, put) (refl, jti-SameQueues event_id (jti_of payload) w w' e)
      ]
  allowed-SameQueues event_id ttl (ok (invalid reason)) w w' e =
      (refl, lookup-SameQueues event_id w w' e)
  allowed-SameQueues event_id ttl (throw x) w w' e = (refl, lookup-SameQueues event_id w w' e)

  issue_signed_lem :
      (event_id : String) (ttl exp : ℕ) (token : List ℕ) (w w' : W)
      → kv.lookup w' ≡ kv.lookup w
      → ((issue_signed c p env event_id (some ttl) token (some exp) w').0
          ≡ ok (record { token = token; expires_at = exp * 1000 }))
        × SameQueues c kv env off event_id w
            (issue_signed c p env event_id (some ttl) token (some exp) w').1
  unfolding issue_signed
  issue_signed_lem event_id ttl exp token w w' e =
      let v = verify_queue_token c p env.jwt_secret token no_options w' in
      let (done, same) =
        allowed-SameQueues event_id ttl v.0 w v.1 (verify_queue_token-lookup _ _ _ w' ∙ e) in
      rw done (refl, same)

  issue_token_lem :
      (event_id user : String) (ttl : ℕ) (w : W)
      → setting env.jwt_ttl_sec default_ttl_sec ≡ some ttl
      → is_blank env.jwt_secret ≡ false
      → ((issue_token c p env event_id user w).0 ≡ ok (issued_at event_id user ttl w))
        × SameQueues c kv env off event_id w (issue_token c p env event_id user w).1
  unfolding issue_token sign_queue_token hmac_key
  issue_token_lem event_id user ttl w e keyed =
      rw (e, keyed)
        (issue_signed_lem event_id ttl _ _ w _ (kv.lookup-random_uuid _ ∙ kv.lookup-date_now w))

  -- What a user is answered, and what is left of the queues.
  pub record IsAnswered (event_id user : String) (origin : Option String) (wm ttl : ℕ) (w : W)
      (r : Outcome Response × W) : Type 0 where
    pub issued : Option Issued
    pub returned :
        r.0
        ≡ ok (
            json
              (reported (status_reply event_id user (ranks_at event_id user w) (some wm) issued))
              200
              (no_store ∷ [])
              origin)
    pub given :
        (issued ≡ some (issued_at event_id user ttl w))
        ↔ IsWithin (place_in kv w (active_key event_id) user) wm
    pub withheld : (issued ≡ none) ↔ (IsWithin (place_in kv w (active_key event_id) user) wm → ⊥)
    pub same : SameQueues c kv env off event_id w r.1

  status_of_lem :
      (event_id user : String) (origin : Option String) (wm ttl : ℕ) (w : W)
      → setting env.jwt_ttl_sec default_ttl_sec ≡ some ttl
      → is_blank env.jwt_secret ≡ false
      → counter (value_at kv w (admitted_key event_id)) ≡ some wm
      → (b : Bool) → is_admitted (place_in kv w (active_key event_id) user) (some wm) ≡ b
      → IsAnswered event_id user origin wm ttl w (status_of c p env event_id user origin w)
  unfolding status_of read_ranks ranks_kv read_watermark issue_if
  status_of_lem event_id user origin wm ttl w lasts keyed readable true e =
      let (issued, same) = issue_token_lem event_id user ttl w lasts keyed in
      rw (off, kv.kv_get_lem, kv.kv_get_lem, kv.kv_get_lem, readable, e, issued)
        (record {
          issued = some (issued_at event_id user ttl w);
          returned = refl;
          given = (λ _. (is_admitted_iff _ wm).0 e, λ _. refl);
          withheld = (λ q. absurd (cc), λ q. absurd (q ((is_admitted_iff _ wm).0 e)));
          same = same;
        })
  status_of_lem event_id user origin wm ttl w lasts keyed readable false e =
      rw (off, kv.kv_get_lem, kv.kv_get_lem, kv.kv_get_lem, readable, e)
        (record {
          issued = none;
          returned = refl;
          given = (λ q. absurd (cc), λ q. absurd (let a = (is_admitted_iff _ wm).1 q in cc));
          withheld = (λ _ q. let a = (is_admitted_iff _ wm).1 q in cc, λ _. refl);
          same = record { pool = refl; active = refl; admitted = refl };
        })

  -- Without Redis, with a secret, a readable lifetime of tokens and a readable watermark, the answer
  -- tells the user's places in the two queues as they are stored, carries a token, signed for that
  -- user and the event, exactly if the place in the active queue, from 1, is at most the watermark,
  -- and leaves both queues and the watermark alone.
  pub status_of-IsAnswered :
      (event_id user : String) (origin : Option String) (wm ttl : ℕ) (w : W)
      → setting env.jwt_ttl_sec default_ttl_sec ≡ some ttl
      → is_blank env.jwt_secret ≡ false
      → counter (value_at kv w (admitted_key event_id)) ≡ some wm
      → IsAnswered event_id user origin wm ttl w (status_of c p env event_id user origin w)
  status_of-IsAnswered event_id user origin wm ttl w lasts keyed readable =
      status_of_lem event_id user origin wm ttl w lasts keyed readable _ refl

-- ===== src/Room/Told.antt =====
-- What `handleStatus` tells a user, and when it gives a token, with Redis.
mod Calm
use crowdtic.Base.{
  is_blank, ℕ, ◌+◌, ◌*◌, ◌≡◌, ◌↔◌, inl, inr, refl, ap, ◌∙◌, String, Bool, true, false, Option, none,
  some, List, [], ◌∷◌, ok, throw, Outcome, arith, pure, continue, caught, Bool-cases, length,
}
use crowdtic.Platform.{Platform, text, jti_key, pool_key, active_key, admitted_key}
use crowdtic.Env.{Env, setting, default_ttl_sec}
use crowdtic.Redis.{enabled, as_count}
use crowdtic.RateLimit.{counter}
use crowdtic.Http.{Response, reported, no_store, json}
use crowdtic.Token.Base64.{Crypto}
use crowdtic.Token.Claims.{Payload}
use crowdtic.Token.Sign.{sign_queue_token, hmac_key}
use crowdtic.Token.Verify.{
  verify_queue_token, verify_parts, verify_signed, check_payload, no_options, VerifyOptions,
  Verdict, valid, invalid,
}
use crowdtic.Token.Window.{second_of, token_at}
use crowdtic.Room.Status.{
  Ranks, read_ranks, ranks_redis, read_watermark, is_admitted, status_reply, status_of, issue_if,
  issue_token, issue_signed, Issued, allow_verified, allow_jti, jti_of,
}
use crowdtic.Room.Tickets.{grant_for}
use crowdtic.Room.Sets.{url_of, token_of, cmd_lem}
use crowdtic.Room.Standing.{IsWithin, is_admitted_iff}
use crowdtic.Room.Lined.{line_place, rank_reply, LineLaws, RankLaws}
use crowdtic.Room.Served.{SameLines, set_ok, counter-value_reply}
use crowdtic.Room.Told.Calm.{
  IsCalm, IsCalm-refl, drawn-IsCalm, IsCalm-trans, verify_queue_token-IsCalm,
}

as_count-rank_reply : (o : Option ℕ) → as_count (rank_reply o) ≡ o
as_count-rank_reply none = refl
as_count-rank_reply (some i) = refl

module _ {W : Type 0} (c : Crypto) {p : Platform W} (env : Env) (on : enabled env ≡ true)
    (redis : LineLaws p (url_of env) (token_of env))
    (ranks : RankLaws p (url_of env) (token_of env) redis) (event_id : String) where
  -- The token of a user at a world, and when it ends.
  abbrev issued_on : String → ℕ → W → Issued
  issued_on user ttl w = record {
    token = token_at c p env.jwt_secret (grant_for env event_id user) w;
    expires_at = (second_of p w + ttl) * 1000;
  }

  -- What the user is told of the two sets.
  abbrev ranks_on : String → W → Ranks
  ranks_on user w = record {
    pool_rank = line_place user (redis.members w (pool_key event_id));
    active_rank = line_place user (redis.members w (active_key event_id));
    pool_size = length (redis.members w (pool_key event_id));
    active_size = length (redis.members w (active_key event_id));
  }

  abbrev AreSame : W → W → Type 0
  AreSame = SameLines c env on redis event_id

  calm-SameLines : {w w' : W} → IsCalm redis w w' → AreSame w w'
  calm-SameLines calm = record {
    pool = ap (λ f. f (pool_key event_id)) calm.members;
    active = ap (λ f. f (active_key event_id)) calm.members;
    admitted = ap (λ f. f (admitted_key event_id)) calm.value;
  }

  listed-SameLines :
      (jti : String) (ttl : ℕ) (w w' : W)
      → IsCalm redis w w'
      → AreSame w (redis.set (jti_key event_id jti) (text "1") ttl w')
  listed-SameLines jti ttl w w' calm =
      let was = calm-SameLines calm in
      record {
        pool = redis.members-set _ _ _ ttl w' (λ q. cc) ∙ was.pool;
        active = redis.members-set _ _ _ ttl w' (λ q. cc) ∙ was.active;
        admitted = redis.value-set_other _ _ _ ttl w' (λ q. cc) ∙ was.admitted;
      }

  -- The sets of an event after the write of a token's id, if there was one.
  allowed-SameLines :
      (ttl : ℕ) (r : Outcome Verdict) (w w' : W)
      → IsCalm redis w w'
      → ((caught
            (continue r w' (allow_verified c p env event_id ttl)).0
            (continue r w' (allow_verified c p env event_id ttl)).1
            (λ _. pure tt)).0
          ≡ ok tt)
        × AreSame w
            (caught
              (continue r w' (allow_verified c p env event_id ttl)).0
              (continue r w' (allow_verified c p env event_id ttl)).1
              (λ _. pure tt)).1
  unfolding allow_verified allow_jti
  allowed-SameLines ttl (ok (valid payload)) w w' calm =
      let key_of_it = jti_key event_id (jti_of payload) in
      rw (on, (set_ok c env on redis event_id key_of_it (text "1") (ttl + 10) w' (omega arith)).1)
        (refl, listed-SameLines (jti_of payload) (ttl + 10) w w' calm)
  allowed-SameLines ttl (ok (invalid reason)) w w' calm = (refl, calm-SameLines calm)
  allowed-SameLines ttl (throw x) w w' calm = (refl, calm-SameLines calm)

  issue_signed_lem :
      (ttl exp : ℕ) (token : List ℕ) (w w' : W)
      → IsCalm redis w w'
      → ((issue_signed c p env event_id (some ttl) token (some exp) w').0
          ≡ ok (record { token = token; expires_at = exp * 1000 }))
        × AreSame w (issue_signed c p env event_id (some ttl) token (some exp) w').1
  unfolding issue_signed
  issue_signed_lem ttl exp token w w' calm =
      let v = verify_queue_token c p env.jwt_secret token no_options w' in
      let (done, same) =
        allowed-SameLines ttl v.0 w v.1
          (IsCalm-trans redis calm (verify_queue_token-IsCalm c redis _ _ _ w')) in
      rw done (refl, same)

  issue_token_lem :
      (user : String) (ttl : ℕ) (w : W)
      → setting env.jwt_ttl_sec default_ttl_sec ≡ some ttl
      → is_blank env.jwt_secret ≡ false
      → ((issue_token c p env event_id user w).0 ≡ ok (issued_on user ttl w))
        × AreSame w (issue_token c p env event_id user w).1
  unfolding issue_token sign_queue_token hmac_key
  issue_token_lem user ttl w e keyed =
      rw (e, keyed) (issue_signed_lem ttl _ _ w _ (drawn-IsCalm redis w))

  read_ranks_lem :
      (user : String) (w : W) → read_ranks p env event_id user w ≡ (ok (ranks_on user w), w)
  unfolding read_ranks ranks_redis
  read_ranks_lem user w =
      rw
        (
          on,
          cmd_lem p env on _ _ w w (ranks.zrank_lem (pool_key event_id) user w),
          cmd_lem p env on _ _ w w (ranks.zrank_lem (active_key event_id) user w),
          cmd_lem p env on _ _ w w (ranks.zsize_lem (pool_key event_id) w),
          cmd_lem p env on _ _ w w (ranks.zsize_lem (active_key event_id) w),
          as_count-rank_reply (line_place user (redis.members w (pool_key event_id))),
          as_count-rank_reply (line_place user (redis.members w (active_key event_id))),
        )
        refl

  read_watermark_lem :
      (wm : ℕ) (w : W)
      → counter (redis.value w (admitted_key event_id)) ≡ some wm
      → read_watermark p env event_id w ≡ (ok (some wm), w)
  unfolding read_watermark
  read_watermark_lem wm w e =
      rw
        (
          on,
          cmd_lem p env on _ _ w w (redis.get_lem (admitted_key event_id) w),
          counter-value_reply c env on redis event_id (redis.value w (admitted_key event_id)),
          e,
        )
        refl

  -- What a user is answered, and what is left of the sets.
  pub record IsTold (user : String) (origin : Option String) (wm ttl : ℕ) (w : W)
      (r : Outcome Response × W) : Type 0 where
    pub issued : Option Issued
    pub returned :
        r.0
        ≡ ok (
            json
              (reported (status_reply event_id user (ranks_on user w) (some wm) issued))
              200
              (no_store ∷ [])
              origin)
    pub given :
        (issued ≡ some (issued_on user ttl w))
        ↔ IsWithin (line_place user (redis.members w (active_key event_id))) wm
    pub withheld :
        (issued ≡ none) ↔ (¬ IsWithin (line_place user (redis.members w (active_key event_id))) wm)
    pub same : AreSame w r.1

  status_of_lem :
      (user : String) (origin : Option String) (wm ttl : ℕ) (w : W)
      → setting env.jwt_ttl_sec default_ttl_sec ≡ some ttl
      → is_blank env.jwt_secret ≡ false
      → counter (redis.value w (admitted_key event_id)) ≡ some wm
      → (b : Bool)
      → is_admitted (line_place user (redis.members w (active_key event_id))) (some wm) ≡ b
      → IsTold user origin wm ttl w (status_of c p env event_id user origin w)
  unfolding status_of issue_if
  status_of_lem user origin wm ttl w lasts keyed readable true e =
      let (issued, same) = issue_token_lem user ttl w lasts keyed in
      rw (read_ranks_lem user w, read_watermark_lem wm w readable, e, issued)
        (record {
          issued = some (issued_on user ttl w);
          returned = refl;
          given = (λ _. (is_admitted_iff _ wm).0 e, λ _. refl);
          withheld = (λ q. absurd (cc), λ q. absurd (q ((is_admitted_iff _ wm).0 e)));
          same = same;
        })
  status_of_lem user origin wm ttl w lasts keyed readable false e =
      rw (read_ranks_lem user w, read_watermark_lem wm w readable, e)
        (record {
          issued = none;
          returned = refl;
          given = (λ q. absurd (cc), λ q. absurd (let a = (is_admitted_iff _ wm).1 q in cc));
          withheld = (λ _ q. let a = (is_admitted_iff _ wm).1 q in cc, λ _. refl);
          same = calm-SameLines (IsCalm-refl redis w);
        })

  -- With Redis, with a secret, a readable lifetime of tokens and a readable watermark, the answer
  -- tells the user's places in the two sets and their sizes, carries a token, signed for that user
  -- and the event, exactly if the place in the active set, from 1, is at most the watermark, and
  -- leaves both sets and the watermark alone.
  pub status_of-IsTold :
      (user : String) (origin : Option String) (wm ttl : ℕ) (w : W)
      → setting env.jwt_ttl_sec default_ttl_sec ≡ some ttl
      → is_blank env.jwt_secret ≡ false
      → counter (redis.value w (admitted_key event_id)) ≡ some wm
      → IsTold user origin wm ttl w (status_of c p env event_id user origin w)
  status_of-IsTold user origin wm ttl w lasts keyed readable =
      status_of_lem user origin wm ttl w lasts keyed readable _ refl

-- ===== src/Room/Overtaken.antt =====
-- The status of a user who is still waiting after an admission, without Redis.
use crowdtic.Base.{
  ℕ, ◌+◌, ◌≤◌, ◌≡◌, ap, ◌∙◌, sym, subst, String, Option, some, [], ◌∷◌, ok, length, length-map, min,
  is_blank, false,
}
use crowdtic.Platform.{Platform, active_key, admitted_key}
use crowdtic.Env.{Env, setting, default_ttl_sec}
use crowdtic.Redis.{enabled}
use crowdtic.RateLimit.{counter}
use crowdtic.Http.{reported, no_store, json}
use crowdtic.Token.Base64.{Crypto}
use crowdtic.Room.Queue.{find_index}
use crowdtic.Room.Status.{status_reply, status_of}
use crowdtic.Room.Admit.{admit_users}
use crowdtic.Room.Popped.{users_of, popped, kept, pop_users-IsFair}
use crowdtic.Room.Admission.{admit_users-HasMoved}
use crowdtic.Room.Standing.{
  rank_in_lem, IsWithin, place_in, ranks_at, issued_at, status_of-IsAnswered,
}
use crowdtic.Room.Store.{KvLaws, value_at, queue_at}

module _ {W : Type 0} (c : Crypto) {p : Platform W} (kv : KvLaws p) (env : Env)
    (off : enabled env ≡ false) where
  -- How many an admission of `n` takes.
  abbrev pub taken : String → ℕ → W → ℕ
  taken event_id n w = min n (length (queue_at kv w (active_key event_id)))

  size_lem :
      (event_id : String) (n : ℕ) (w : W)
      → length (users_of (popped n (queue_at kv w (active_key event_id)))) ≡ taken event_id n w
  size_lem event_id n w =
      length-map (λ e. e.m) (popped n (queue_at kv w (active_key event_id)))
      ∙ (pop_users-IsFair kv env off event_id n w).3

  -- Without Redis and with a secret for tokens, right after an admission of `n`, a user whose place
  -- among those left, from 1, is at most the old watermark and the number admitted together is given
  -- a token by a status request, which asks neither for the secret of an admission nor for the
  -- bucket.
  pub status_of-admit_users :
      (event_id user : String) (n wm ttl i : ℕ) (remaining : Option ℕ) (origin : Option String)
      (w : W)
      → setting env.jwt_ttl_sec default_ttl_sec ≡ some ttl
      → is_blank env.jwt_secret ≡ false
      → counter (value_at kv w (admitted_key event_id)) ≡ some wm
      → find_index user (kept n (queue_at kv w (active_key event_id))) ≡ some i
      → i + 1 ≤ wm + taken event_id n w
      → (status_of c p env event_id user origin
          (admit_users c p env event_id n remaining origin w).1).0
        ≡ ok (
            json
              (reported (
                status_reply event_id user
                  (ranks_at c kv env off event_id user
                    (admit_users c p env event_id n remaining origin w).1)
                  (some (wm + taken event_id n w))
                  (some (
                    issued_at c kv env off event_id user ttl
                      (admit_users c p env event_id n remaining origin w).1))))
              200
              (no_store ∷ [])
              origin)
  status_of-admit_users event_id user n wm ttl i remaining origin w lasts keyed readable left near =
      let w' = (admit_users c p env event_id n remaining origin w).1 in
      let a =
        admit_users-HasMoved c kv env off event_id n wm ttl remaining origin w lasts readable in
      let raised : counter (value_at kv w' (admitted_key event_id))
          ≡ some (wm + taken event_id n w) =
        a.watermark ∙ ap (λ m. some (wm + m)) (size_lem event_id n w) in
      let s =
        status_of-IsAnswered c kv env off event_id user origin (wm + taken event_id n w) ttl w'
          lasts keyed raised in
      let place : place_in kv w' (active_key event_id) user ≡ some i =
        rank_in_lem user _ ∙ ap (find_index user) a.left ∙ left in
      let within : IsWithin (place_in kv w' (active_key event_id) user) (wm + taken event_id n w) =
        subst (λ o. IsWithin o (wm + taken event_id n w)) (sym place) near in
      s.returned
      ∙ ap
          (λ o. ok (
            json
              (reported (
                status_reply event_id user (ranks_at c kv env off event_id user w')
                  (some (wm + taken event_id n w)) o))
              200 (no_store ∷ []) origin))
          (s.given.1 within)

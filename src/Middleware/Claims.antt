-- ===== src/Middleware/Claims.antt =====
-- Which claims the middleware lets through, described apart from the order of its checks.
use crowdtic.Base.{
  ℕ, ◌+◌, ◌≤◌, ◌≡◌, refl, ◌≢◌, ◌↔◌, ◌⊎◌, inl, String, Bool, true, false, not, ◌||◌, Option, none,
  some, arith, get_or, is_blank, eq_iff, if◌then◌else◌,
}
use crowdtic.Token.Claims.{Json, null, bool, num, str, other, Payload, claim, is_text}
use crowdtic.Token.Verify.{is_past, is_early}
use crowdtic.Middleware.Request.{ProcessEnv}
use crowdtic.Middleware.Enforce.{Answer, check_token, text_claim, is_mismatch, jwt_leeway_sec}

-- The route names no event, or this one.
abbrev pub IsForRoute : Option String → String → Type 0
IsForRoute route event = (route ≡ none) ⊎ ((route ≡ some "") ⊎ (route ≡ some event))

pub record IsAdmissible (env : ProcessEnv) (route : Option String) (now : ℕ) (payload : Payload)
    : Type 0 where
  pub unexpired : (e : ℕ) → claim "exp" payload ≡ some (num e) → now ≤ e + jwt_leeway_sec
  pub started : (b : ℕ) → claim "nbf" payload ≡ some (num b) → b ≤ now + jwt_leeway_sec
  pub issued : claim "iss" payload ≡ some (str (get_or env.jwt_issuer "tiket-waiting-room"))
  pub meant : claim "aud" payload ≡ some (str (get_or env.jwt_audience "tiket-checkout"))
  pub event_given : text_claim (claim "event_id" payload) ≢ ""
  pub user_given : text_claim (claim "user_id" payload) ≢ ""
  pub routed : IsForRoute route (text_claim (claim "event_id" payload))

is_past-num :
    (now leeway : ℕ) (o : Option Json)
    → is_past now leeway o ≡ false
    → (e : ℕ) → o ≡ some (num e)
    → now ≤ e + leeway
is_past-num now leeway o h e q = ground arith

is_past_of :
    (now leeway : ℕ) (o : Option Json)
    → ((e : ℕ) → o ≡ some (num e) → now ≤ e + leeway)
    → is_past now leeway o ≡ false
is_past_of now leeway (some (num e)) h = ground (arith, h e refl)
is_past_of now leeway none h = refl
is_past_of now leeway (some _) h = refl

is_early-num :
    (now leeway : ℕ) (o : Option Json)
    → is_early now leeway o ≡ false
    → (b : ℕ) → o ≡ some (num b)
    → b ≤ now + leeway
is_early-num now leeway o h b q = ground arith

is_early_of :
    (now leeway : ℕ) (o : Option Json)
    → ((b : ℕ) → o ≡ some (num b) → b ≤ now + leeway)
    → is_early now leeway o ≡ false
is_early_of now leeway (some (num b)) h = ground (arith, h b refl)
is_early_of now leeway none h = refl
is_early_of now leeway (some _) h = refl

pub is_text_iff :
    (want : String) (o : Option Json) → (is_text want o ≡ true) ↔ (o ≡ some (str want))
is_text_iff want none = ground arith
is_text_iff want (some (str s)) = ground (arith, eq_iff want s)
is_text_iff want (some null) = ground arith
is_text_iff want (some other) = ground arith
is_text_iff want (some (bool b)) = ground arith
is_text_iff want (some (num n)) = ground arith

is_mismatch_iff :
    (route : Option String) (event : String)
    → (is_mismatch route event ≡ false) ↔ IsForRoute route event
is_mismatch_iff none event = (λ _. inl refl, λ _. refl)
is_mismatch_iff (some r) event = ground (arith, eq_iff r "", eq_iff event r)

-- The order of the checks, over their results.
ladder_iff :
    (past early iss aud event user away : Bool) (x₁ x₂ x₃ x₄ x₅ x₆ : Answer)
    → (◌≡◌ {A = Option Answer}
        (if past
          then some x₁
          else if early
          then some x₂
          else if not iss
          then some x₃
          else if not aud
          then some x₄
          else if event || user
          then some x₅
          else if away
          then some x₆
          else none)
        none)
      ↔ ((past ≡ false)
          × (early ≡ false)
          × (iss ≡ true)
          × (aud ≡ true)
          × (event ≡ false)
          × (user ≡ false)
          × (away ≡ false))
ladder_iff past early iss aud event user away x₁ x₂ x₃ x₄ x₅ x₆ = (ground arith, ground arith)

is_blank_iff : (s : String) → (is_blank s ≡ false) ↔ (s ≢ "")
is_blank_iff s = ground (arith, eq_iff s "")

module _ (env : ProcessEnv) (api : Bool) (route : Option String) (now : ℕ) (payload : Payload) where
  -- The checks on the claims pass exactly if the token has not ended and has begun, with the
  -- leeway, is of the issuer and for the audience expected, names an event and a user, and its
  -- event is that of the route, if the route names one.
  pub check_token-eq-none_iff :
      (check_token env api route now payload ≡ none) ↔ IsAdmissible env route now payload
  unfolding check_token
  check_token-eq-none_iff =
      let (to, from) = ladder_iff _ _ _ _ _ _ _ _ _ _ _ _ _ in
      (
        λ h.
            let (past, early, iss, aud, event, user, other_event) = to h in
            record {
              unexpired = is_past-num now _ _ past;
              started = is_early-num now _ _ early;
              issued = (is_text_iff _ _).0 iss;
              meant = (is_text_iff _ _).0 aud;
              event_given = (is_blank_iff _).0 event;
              user_given = (is_blank_iff _).0 user;
              routed = (is_mismatch_iff route _).0 other_event;
            },
        λ a. from (
          is_past_of now _ _ a.unexpired,
          is_early_of now _ _ a.started,
          (is_text_iff _ _).1 a.issued,
          (is_text_iff _ _).1 a.meant,
          (is_blank_iff _).1 a.event_given,
          (is_blank_iff _).1 a.user_given,
          (is_mismatch_iff route _).1 a.routed,
        ),
      )

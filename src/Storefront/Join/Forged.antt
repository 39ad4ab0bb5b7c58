-- ===== src/Storefront/Join/Forged.antt =====
-- The token that the page signs on its own, at the middleware.
use crowdtic.Base.{
  ℕ, ◌+◌, ◌/◌, ◌≤◌, ◌≡◌, ◌≢◌, refl, ap, sym, ◌∙◌, String, true, false, Option, none, some, ok,
  arith, is_blank, codes, Bool-cases, inl, inr,
}
use crowdtic.Platform.{Platform}
use crowdtic.Token.Base64.{Crypto}
use crowdtic.Token.Claims.{Payload, claim}
use crowdtic.Token.Sign.{seal}
use crowdtic.Token.Laws.{CryptoLaws, IsReadBack}
use crowdtic.Token.Window.{second_of}
use crowdtic.Middleware.Request.{NextRequest, ProcessEnv, extract_event_id, extract_token}
use crowdtic.Middleware.Enforce.{
  authenticated, pass_of, check_jti_allowlist, middleware, middleware_secret, fits_headers,
}
use crowdtic.Middleware.Claims.{IsForRoute, IsAdmissible}
use crowdtic.Middleware.Accepts.{middleware-seal, num_inj}
use crowdtic.Storefront.State.{Home}
use crowdtic.Storefront.Browser.{Browser, unreachable}
use crowdtic.Storefront.Join.{
  dev_secret, dev_ttl_sec, dev_claims, sign_dev_queue_token, user_of, keep_token, fall_back,
  join_request, join_done, join_queue,
}

dev_claims-IsAdmissible :
    (env : ProcessEnv) (route : Option String) (now issued : ℕ) (user event jti : String)
    → now ≤ issued + dev_ttl_sec + 5
    → issued ≤ now + 5
    → env.jwt_issuer ≡ none
    → env.jwt_audience ≡ none
    → user ≢ ""
    → event ≢ ""
    → IsForRoute route event
    → IsAdmissible env route now (dev_claims user event issued jti)
unfolding claim dev_claims
dev_claims-IsAdmissible env route now issued user event jti before after iss aud named_user
      named_event routed =
    record {
      unexpired = λ e q. omega (arith, before, num_inj _ _ q);
      started = λ b q. omega (arith, after, num_inj _ _ q);
      issued = rw iss refl;
      meant = rw aud refl;
      event_given = named_event;
      user_given = named_user;
      routed = routed;
    }

dev_claims-fits_headers :
    {V : Type 0} (p : Platform V) (user event : String) (issued : ℕ) (jti : String)
    → p.is_header_value user ≡ true
    → p.is_header_value event ≡ true
    → p.is_header_value jti ≡ true
    → fits_headers p (dev_claims user event issued jti) ≡ true
unfolding claim dev_claims
dev_claims-fits_headers p user event issued jti e f g = elim (Bool-cases (is_blank jti)) [
  | inl bare ↦ rw (e, f, bare) refl
  | inr full ↦ rw (e, f, full, g) refl
]

module _ {W : Type 0} (b : Browser W) (h : Home) (w : W) where
  -- The browser when the worker's answer is there: the id of the user and a random text are drawn.
  abbrev pub user_at : String
  user_at = (user_of b w).0

  abbrev pub answered_at : W
  answered_at =
      let w₁ = (user_of b w).1 in
      let text = (b.random_text w₁).0 in
      (b.post_join (join_request b h.selected user_at text) (b.random_text w₁).1).1

  -- The id that the page's own token gets, and what that token claims.
  abbrev pub forged_jti : String
  forged_jti = (b.random_uuid (b.date_now answered_at).1).0

  abbrev pub forged_claims : Payload
  forged_claims = dev_claims user_at h.selected ((b.date_now answered_at).0 / 1000) forged_jti

  abbrev pub IsUnreachable : Type 0
  IsUnreachable =
      (b.post_join (join_request b h.selected user_at (b.random_text (user_of b w).1).0)
        (b.random_text (user_of b w).1).1).0
      ≡ unreachable

  join_queue-fallback :
      (c : Crypto) → IsUnreachable → (join_queue c b h w).0.token ≡ seal c dev_secret forged_claims
  unfolding join_queue join_done fall_back keep_token sign_dev_queue_token
  join_queue-fallback c down = rw down refl

module _ {W V : Type 0} (c : Crypto) (b : Browser W) (p : Platform V) (env : ProcessEnv)
    (laws : CryptoLaws c) where
  -- If the worker cannot be reached, the page makes itself a token, and a middleware that is
  -- configured with the secret of local development, and with the issuer and audience by default,
  -- lets it through as authenticated at a request for the selected event, or for none, for the 600
  -- seconds that it claims, with 5 more on either side; the allowlist, if there is one and it
  -- answers, has to hold its id, and a header has to take the ids that it names.
  pub middleware-join_queue :
      (h : Home) (w : W) (req : NextRequest) (token : String) (v : V)
      → IsUnreachable b h w
      → middleware_secret c p env ≡ dev_secret
      → extract_token req ≡ some token
      → codes token ≡ (join_queue c b h w).0.token
      → is_blank token ≡ false
      → IsReadBack c (forged_claims b h w)
      → second_of p v ≤ (b.date_now (answered_at b h w)).0 / 1000 + dev_ttl_sec + 5
      → (b.date_now (answered_at b h w)).0 / 1000 ≤ second_of p v + 5
      → env.jwt_issuer ≡ none
      → env.jwt_audience ≡ none
      → user_at b h w ≢ ""
      → h.selected ≢ ""
      → IsForRoute (extract_event_id req) h.selected
      → (check_jti_allowlist c p env (forged_claims b h w) (p.date_now v).1).0 ≡ ok true
      → p.is_header_value (user_at b h w) ≡ true
      → p.is_header_value h.selected ≡ true
      → p.is_header_value (forged_jti b h w) ≡ true
      → (middleware c p env req v).0
        ≡ ok (authenticated (pass_of req token (second_of p v) (forged_claims b h w)))
  middleware-join_queue h w req token v down secret presented kept given back before after iss aud
        user event routed listed latin_user latin_event latin_jti =
      middleware-seal c p env laws req token _ v (ap is_blank secret) presented given
        (kept
          ∙ join_queue-fallback b h w c down
          ∙ ap (λ s. seal c s (forged_claims b h w)) (sym secret))
        back (dev_claims-IsAdmissible env _ _ _ _ _ _ before after iss aud user event routed) listed
        (dev_claims-fits_headers p _ _ _ _ latin_user latin_event latin_jti)

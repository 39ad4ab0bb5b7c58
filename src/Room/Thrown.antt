-- ===== src/Room/Thrown.antt =====
-- The request that no response answers.
use crowdtic.Base.{
  ℕ, ◌≡◌, refl, String, false, none, some, List, [], ◌∷◌, is_blank, is_empty, throw,
}
use crowdtic.Platform.{Platform}
use crowdtic.Env.{Env}
use crowdtic.Http.{Request, JsonBody, fields, given}
use crowdtic.Token.Base64.{Crypto, b64url_decode_to_bytes}
use crowdtic.Token.Split.{split_dots}
use crowdtic.Token.Sign.{hmac_key}
use crowdtic.Token.Verify.{invalid_base64, verify_queue_token, verify_parts, verify_signed}
use crowdtic.Room.Router.{route_of, verify, verify_body, verify_token, dispatch, fetch}

module _ {W : Type 0} (c : Crypto) (p : Platform W) (env : Env) where
  verify_parts_throws :
      (secret : String) (o : _) (h b s : List ℕ) (w : W)
      → is_blank secret ≡ false
      → b64url_decode_to_bytes c s ≡ none
      → (verify_parts c p secret o (h ∷ b ∷ s ∷ []) w) ≡ (throw invalid_base64, w)
  unfolding verify_parts verify_signed hmac_key
  verify_parts_throws secret o h b s w keyed bad = rw (keyed, bad) refl

  -- With a secret, a POST of /queue/verify with a token of three parts whose last is no base64url
  -- text is answered by no response at all: the decoder's error is thrown out of the handler.
  pub fetch_throws :
      (req : Request) (body : JsonBody) (token h b s : List ℕ) (w : W)
      → is_blank env.jwt_secret ≡ false
      → req.method ≡ "POST"
      → route_of req ≡ "/queue/verify"
      → req.body ≡ some (fields body)
      → body.token ≡ some (given token)
      → split_dots token ≡ h ∷ b ∷ s ∷ []
      → is_empty token ≡ false
      → b64url_decode_to_bytes c s ≡ none
      → (fetch c p env req w).0 ≡ throw invalid_base64
  unfolding fetch dispatch verify verify_body verify_token verify_queue_token
  fetch_throws req body token h b s w keyed post route sent named parts full bad =
      rw
        (
          post,
          route,
          sent,
          named,
          full,
          parts,
          verify_parts_throws env.jwt_secret
              (record { issuer = env.jwt_issuer; audience = env.jwt_audience; leeway_sec = 5 }) h b
              s w keyed bad,
        )
        refl

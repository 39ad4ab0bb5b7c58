-- ===== src/Tests/Tokens.antt =====
-- The theorems on tokens, the middleware and the bucket at concrete inputs.
use crowdtic.Base.{
  ℕ, ◌+◌, ◌≤◌, ◌≡◌, refl, ◌↔◌, inl, inr, ◌<◌, true, false, Option, none, some, arith, ok,
  length_utf16, codes, eq_iff,
}
use crowdtic.Platform.{BucketState}
use crowdtic.Token.Base64.{
  to_url, strip_padding, padding_of, from_url, b64url_encode, b64url_decode_to_bytes,
}
use crowdtic.Token.Claims.{claim}
use crowdtic.Token.Sign.{claims_of, seal}
use crowdtic.Token.Verify.{verify_queue_token, valid}
use crowdtic.Bucket.Step.{bucket_step}
use crowdtic.Bucket.Retry.{never-allowed_iff}
use crowdtic.Token.Split.{split_dots}
use crowdtic.Token.Window.{verify-sign_iff, IsComplete, token_at, second_of}
use crowdtic.Middleware.Request.{extract_event_id, extract_token}
use crowdtic.Middleware.Enforce.{
  middleware, with_token, hmac_verify, after_signature, check_token, authenticated,
  check_jti_allowlist, pass_of,
}
use crowdtic.Middleware.Claims.{IsAdmissible, check_token-eq-none_iff}
use crowdtic.Middleware.Safety.{IsAdmitted, middleware-IsAdmitted}
use crowdtic.Middleware.Accepts.{middleware-sign_queue_token}
use crowdtic.Tests.Coder.{crypto, crypto-laws, parse-print}
use crowdtic.Tests.Latin.{is_latin}
use crowdtic.Tests.World.{platform}
use crowdtic.Tests.Data.{start, grant, known, options, token, request, process_env}

never-allowed_iff_example :
    ((now : ℕ) (s : Option BucketState) → (bucket_step (some 2) 3 now s).0.allowed ≡ false)
    ↔ (2 < 3)
never-allowed_iff_example = never-allowed_iff 2 3

grant-IsComplete : IsComplete grant "0a1b"
grant-IsComplete = record {
  jti_given = (λ e. ground (arith, eq_iff "0a1b" ""));
  user_given = (λ e. ground (arith, eq_iff "ana" ""));
  event_given = (λ e. ground (arith, eq_iff "concert" ""));
}

verify-sign_iff_example :
    ((verify_queue_token
        (crypto known)
        platform
        "s3cret"
        (token_at (crypto known) platform "s3cret" grant start)
        options
        start).0
      ≡ ok (valid known))
    ↔ ((second_of platform start ≤ 1700000000 + 60 + 5)
        × (1700000000 ≤ second_of platform start + 5))
unfolding platform
verify-sign_iff_example =
    (verify-sign_iff (crypto known) platform (crypto-laws known) "s3cret" grant 60 options start
      start refl refl grant-IsComplete (inl refl) (inl refl) (parse-print known)).1

request-passes :
    (middleware (crypto known) platform process_env request start).0
    ≡ ok (authenticated (pass_of request token 1700000000 known))
unfolding middleware with_token hmac_verify after_signature check_token extract_token
    extract_event_id split_dots codes b64url_decode_to_bytes crypto padding_of from_url length_utf16
    claims_of claim platform check_jti_allowlist is_latin
request-passes = refl

middleware-IsAdmitted_example :
    IsAdmitted
      (crypto known)
      platform
      process_env
      request
      start
      (pass_of request token 1700000000 known)
middleware-IsAdmitted_example =
    middleware-IsAdmitted (crypto known) platform process_env request start
      (pass_of request token 1700000000 known) request-passes

check_token-eq-none_iff_example :
    (check_token process_env true (some "concert") 1700000000 known ≡ none)
    ↔ IsAdmissible process_env (some "concert") 1700000000 known
check_token-eq-none_iff_example =
    check_token-eq-none_iff process_env true (some "concert") 1700000000 known

presented-token : extract_token request ≡ some token
unfolding extract_token
presented-token = refl

token-sealed : codes token ≡ seal (crypto known) "s3cret" known
unfolding codes seal crypto claims_of b64url_encode to_url strip_padding length_utf16
token-sealed = refl

request-event_id : extract_event_id request ≡ some "concert"
unfolding extract_event_id
request-event_id = refl

request-listed :
    (check_jti_allowlist (crypto known) platform process_env known (platform.date_now start).1).0
    ≡ ok true
unfolding check_jti_allowlist
request-listed = refl

middleware-sign_queue_token_example :
    (middleware (crypto known) platform process_env request start).0
    ≡ ok (authenticated (pass_of request token 1700000000 known))
unfolding platform crypto is_latin
middleware-sign_queue_token_example =
    middleware-sign_queue_token (crypto known) platform process_env (crypto-laws known) request
      token grant 60 start start refl presented-token refl token-sealed (parse-print known) refl
      (omega arith) (omega arith) refl refl grant-IsComplete.user_given grant-IsComplete.event_given
      (inr (inr request-event_id)) request-listed refl refl refl

-- ===== src/Token/Accept.antt =====
-- `verifyQueueToken` on the tokens of `signQueueToken`.
use mathlib.Core.List.{append_assoc}
use crowdtic.Base.{
  ℕ, ◌/◌, ◌≡◌, refl, String, is_blank, true, false, Option, none, some, List, [], ◌∷◌, ◌++◌, All,
  arith, ok,
}
use crowdtic.Platform.{Platform}
use crowdtic.Token.Base64.{Crypto, b64url_encode, b64url_decode_to_bytes}
use crowdtic.Token.Claims.{Payload}
use crowdtic.Token.Split.{split_dots}
use crowdtic.Token.Sign.{seal, jwt_header, hmac_key}
use crowdtic.Token.Verify.{
  VerifyOptions, check_claims, verify_queue_token, verify_parts, verify_signed, check_payload,
  read_payload, is_null_payload,
}
use crowdtic.Token.Laws.{CryptoLaws, IsReadBack}
use crowdtic.Token.RoundTrip.{IsUrl, b64url_encode-IsUrl, b64url_round_trip}

split_dots_one : (s : List ℕ) → All IsUrl s → split_dots s ≡ s ∷ []
unfolding split_dots
split_dots_one [] h = refl
split_dots_one (c ∷ s) h = ground (arith, split_dots_one s h.1)

split_dots-append :
    (s rest : List ℕ) → All IsUrl s → split_dots (s ++ b'.' ∷ rest) ≡ s ∷ split_dots rest
unfolding split_dots
split_dots-append [] rest h = refl
split_dots-append (c ∷ s) rest h = ground (arith, split_dots-append s rest h.1)

-- A token is cut into the parts that it was put together from.
pub split_dots-seal_text :
    (a b s : List ℕ)
    → All IsUrl a
    → All IsUrl b
    → All IsUrl s
    → split_dots ((a ++ b'.' ∷ b) ++ b'.' ∷ s) ≡ a ∷ b ∷ s ∷ []
split_dots-seal_text a b s ha hb hs =
    rw (append_assoc, split_dots-append a _ ha, split_dots-append b s hb, split_dots_one s hs)

is_null_payload-some :
    (c : Crypto) (o : Option (List ℕ)) (payload : Payload)
    → is_null_payload c o (some payload) ≡ false
is_null_payload-some c none payload = refl
is_null_payload-some c (some bytes) payload = refl

module _ {W : Type 0} (c : Crypto) (p : Platform W) (laws : CryptoLaws c) where
  verify_parts_lem :
      (secret : String) (o : VerifyOptions) (h b s sig : List ℕ) (payload : Payload) (w : W)
      → is_blank secret ≡ false
      → b64url_decode_to_bytes c s ≡ some sig
      → c.hmac_verify secret sig (c.utf8 (h ++ b'.' ∷ b)) ≡ true
      → read_payload c b ≡ some payload
      → verify_parts c p secret o (h ∷ b ∷ s ∷ []) w
        ≡ (ok (check_claims o ((p.date_now w).0 / 1000) payload), (p.date_now w).1)
  unfolding verify_parts hmac_key verify_signed check_payload
  verify_parts_lem secret o h b s sig payload w keyed decoded signed back =
      rw (keyed, decoded, signed, back, is_null_payload-some c (b64url_decode_to_bytes c b) payload)
        refl

  pub read_payload_lem :
      (payload : Payload)
      → IsReadBack c payload
      → read_payload c (b64url_encode c (c.utf8 (c.print_json payload))) ≡ some payload
  read_payload_lem payload back =
      rw (b64url_round_trip c laws _ (laws.utf8-AreBytes (c.print_json payload))) back

  -- A token made with a secret that is not empty passes every check but those on its claims: its verification is
  -- the check of the claims that it was made from, at the time of the verification.
  pub verify_queue_token-seal :
      (secret : String) (o : VerifyOptions) (payload : Payload) (w : W)
      → is_blank secret ≡ false
      → IsReadBack c payload
      → verify_queue_token c p secret (seal c secret payload) o w
        ≡ (ok (check_claims o ((p.date_now w).0 / 1000) payload), (p.date_now w).1)
  unfolding verify_queue_token seal
  verify_queue_token-seal secret o payload w keyed back =
      let h = b64url_encode c (c.utf8 (c.print_json jwt_header)) in
      let b = b64url_encode c (c.utf8 (c.print_json payload)) in
      let signed = c.utf8 (h ++ b'.' ∷ b) in
      let sig = c.hmac_sign secret signed in
      let s = b64url_encode c sig in
      let bytes = laws.hmac-AreBytes secret signed in
      rw
        (split_dots-seal_text h b s
          (b64url_encode-IsUrl c laws _ (laws.utf8-AreBytes (c.print_json jwt_header)))
          (b64url_encode-IsUrl c laws _ (laws.utf8-AreBytes (c.print_json payload)))
          (b64url_encode-IsUrl c laws sig bytes))
        (verify_parts_lem secret o h b s sig payload w keyed (b64url_round_trip c laws sig bytes)
          (laws.verify-sign secret signed) (read_payload_lem payload back))

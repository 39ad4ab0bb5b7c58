-- ===== src/Token/RoundTrip.antt =====
-- `b64urlDecodeToBytes` undoes `b64urlEncode`.
use crowdtic.Base.{
  ℕ, ◌+◌, ◌%◌, ◌≤◌, ◌≡◌, refl, ap, ◌≢◌, some, List, [], ◌∷◌, ◌++◌, map, length, length-append,
  length-map, All, arith,
}
use mathlib.Core.List.{map-append}
use crowdtic.Token.Base64.{
  Crypto, to_url, from_url, strip_padding, padding_of, b64url_encode, b64url_decode_to_bytes,
}
use crowdtic.Token.Laws.{AreBytes, IsStandard, IsBase64, CryptoLaws}

abbrev IsPad : ℕ → Type 0
IsPad x = x ≡ b'='

abbrev pub IsUrl : ℕ → Type 0
IsUrl x = (x ≢ b'=') × (x ≢ b'.')

to_url-IsUrl : (x : ℕ) → IsStandard x → IsUrl (to_url x)
unfolding to_url
to_url-IsUrl x h = ground arith

from_url-to_url : (x : ℕ) → IsStandard x → from_url (to_url x) ≡ x
unfolding to_url from_url
from_url-to_url x h = ground arith

map-to_url-IsUrl : (xs : List ℕ) → All IsStandard xs → All IsUrl (map to_url xs)
map-to_url-IsUrl [] h = tt
map-to_url-IsUrl (x ∷ xs) h = (to_url-IsUrl x h.0, map-to_url-IsUrl xs h.1)

map-from_url-to_url : (xs : List ℕ) → All IsStandard xs → map from_url (map to_url xs) ≡ xs
map-from_url-to_url [] h = refl
map-from_url-to_url (x ∷ xs) h = cc (from_url-to_url x h.0, map-from_url-to_url xs h.1)

to_url_pad : (x : ℕ) → IsPad x → to_url x ≡ x
unfolding to_url
to_url_pad x h = ground arith

map-to_url_pad : (pad : List ℕ) → All IsPad pad → map to_url pad ≡ pad
map-to_url_pad [] h = refl
map-to_url_pad (x ∷ pad) h = cc (to_url_pad x h.0, map-to_url_pad pad h.1)

strip_padding_pad : (pad : List ℕ) → All IsPad pad → strip_padding pad ≡ []
unfolding strip_padding
strip_padding_pad [] h = refl
strip_padding_pad (x ∷ pad) h = ground (arith, strip_padding_pad pad h.1)

strip_padding-append :
    (xs pad : List ℕ) → All IsUrl xs → All IsPad pad → strip_padding (xs ++ pad) ≡ xs
unfolding strip_padding
strip_padding-append [] pad h k = strip_padding_pad pad k
strip_padding-append (x ∷ xs) pad h k = ground (arith, strip_padding-append xs pad h.1 k)

-- The padding is found again from the number of characters before it.
padding_of_lem :
    (n : ℕ) (pad : List ℕ)
    → All IsPad pad
    → length pad ≤ 2
    → (n + length pad) % 4 ≡ 0
    → padding_of n ≡ pad
unfolding padding_of
padding_of_lem n [] h short whole = ground arith
padding_of_lem n (x ∷ []) h short whole = ground arith
padding_of_lem n (x ∷ y ∷ []) h short whole = ground arith
padding_of_lem n (x ∷ y ∷ z ∷ pad) h short whole = absurd (omega arith)

module _ (c : Crypto) (laws : CryptoLaws c) (bytes : List ℕ) (are : AreBytes bytes) where
  text_IsBase64 : IsBase64 (c.btoa bytes)
  text_IsBase64 = laws.btoa-IsBase64 bytes are

  b64url_encode_lem : b64url_encode c bytes ≡ map to_url (text_IsBase64.body)
  unfolding b64url_encode
  b64url_encode_lem =
      let b = text_IsBase64 in
      rw (b.split, map-append to_url b.body b.pad, map-to_url_pad b.pad b.padded)
        (strip_padding-append (map to_url b.body) b.pad (map-to_url-IsUrl b.body b.standard)
          b.padded)

  padding_again : padding_of (length text_IsBase64.body) ≡ text_IsBase64.pad
  padding_again =
      let b = text_IsBase64 in
      padding_of_lem (length b.body) b.pad b.padded b.short
        (omega (arith, ap length b.split, length-append b.body b.pad, b.whole))

  pub b64url_encode-IsUrl : All IsUrl (b64url_encode c bytes)
  b64url_encode-IsUrl = rw b64url_encode_lem (map-to_url-IsUrl _ text_IsBase64.standard)

  -- Decoding gives back the bytes that were encoded.
  pub b64url_round_trip : b64url_decode_to_bytes c (b64url_encode c bytes) ≡ some bytes
  unfolding b64url_decode_to_bytes
  b64url_round_trip =
      let b = text_IsBase64 in
      rw
        (
          b64url_encode_lem,
          b64url_decode_to_bytes,
          map-from_url-to_url b.body b.standard,
          length-map to_url b.body,
          padding_again,
          ← b.split,
        )
        (laws.atob-btoa bytes are)

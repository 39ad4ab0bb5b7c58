-- ===== src/Token/Base64.antt =====
-- `b64urlEncode` and `b64urlDecodeToBytes` over the platform's `btoa` and `atob`, and what else the
-- tokens take from the platform.
use crowdtic.Base.{
  ℕ, ◌%◌, String, Bool, Option, List, [], ◌∷◌, ◌++◌, map, length, if◌then◌else◌, ◌==◌, is_empty,
  ◌&&◌,
}
use crowdtic.Token.Claims.{Payload}

-- The platform's coders and its HMAC. `atob` throws on a text that is not base64, and `JSON.parse` on
-- one that is not JSON: `none`, which also stands for the value null; `is_null` tells that one.
pub record Crypto : Type 0 where
  pub btoa : List ℕ → List ℕ
  pub atob : List ℕ → Option (List ℕ)
  pub utf8 : List ℕ → List ℕ
  pub utf8_decode : List ℕ → List ℕ
  pub print_json : Payload → List ℕ
  pub parse_json : List ℕ → Option Payload
  pub is_null : List ℕ → Bool
  pub hmac_sign : String → List ℕ → List ℕ
  pub hmac_verify : String → List ℕ → List ℕ → Bool

-- `.replace(/\+/g, "-").replace(/\//g, "_")`, one code unit at a time.
unfoldable pub to_url : ℕ → ℕ
to_url c = if c == b'+' then b'-' else if c == b'/' then b'_' else c

-- `.replace(/-/g, "+").replace(/_/g, "/")`
unfoldable pub from_url : ℕ → ℕ
from_url c = if c == b'-' then b'+' else if c == b'_' then b'/' else c

-- `.replace(/=+$/g, "")`
unfoldable pub strip_padding : List ℕ → List ℕ
strip_padding [] = []
strip_padding (c ∷ s) =
    let rest = strip_padding s in if (c == b'=') && is_empty rest then [] else c ∷ rest

-- `s.length % 4 === 0 ? "" : "=".repeat(4 - (s.length % 4))`
unfoldable pub padding_of : ℕ → List ℕ
padding_of n =
    if n % 4 == 0
    then []
    else if n % 4 == 1
    then b'=' ∷ b'=' ∷ b'=' ∷ []
    else if n % 4 == 2
    then b'=' ∷ b'=' ∷ []
    else b'=' ∷ []

unfoldable pub b64url_encode : Crypto → List ℕ → List ℕ
b64url_encode c bytes = strip_padding (map to_url (c.btoa bytes))

unfoldable pub b64url_decode_to_bytes : Crypto → List ℕ → Option (List ℕ)
b64url_decode_to_bytes c s = c.atob (map from_url s ++ padding_of (length s))

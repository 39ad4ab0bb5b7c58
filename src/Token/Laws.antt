-- ===== src/Token/Laws.antt =====
-- What the code relies on of the platform's coders and of its HMAC.
use crowdtic.Base.{ℕ, ◌%◌, ◌≤◌, ◌<◌, ◌≡◌, ◌≢◌, String, true, some, List, ◌++◌, All, length}
use crowdtic.Token.Base64.{Crypto}
use crowdtic.Token.Claims.{Payload}

abbrev pub AreBytes : List ℕ → Type 0
AreBytes = All (λ x. x < 256)

-- Of the characters that the code treats in a special way, base64 text has only + and / before its
-- padding.
abbrev pub IsStandard : ℕ → Type 0
IsStandard x = (x ≢ b'-') × (x ≢ b'_') × (x ≢ b'=') × (x ≢ b'.')

-- Base64 text: standard characters, then at most two =, in all a multiple of four.
pub record IsBase64 (text : List ℕ) : Type 0 where
  pub body : List ℕ
  pub pad : List ℕ
  pub split : text ≡ body ++ pad
  pub standard : All IsStandard body
  pub padded : All (λ x. x ≡ b'=') pad
  pub short : length pad ≤ 2
  pub whole : length text % 4 ≡ 0

pub record CryptoLaws (c : Crypto) : Type 0 where
  pub btoa-IsBase64 : (bytes : List ℕ) → AreBytes bytes → IsBase64 (c.btoa bytes)
  pub atob-btoa : (bytes : List ℕ) → AreBytes bytes → c.atob (c.btoa bytes) ≡ some bytes
  pub utf8-AreBytes : (s : List ℕ) → AreBytes (c.utf8 s)
  pub hmac-AreBytes : (secret : String) (s : List ℕ) → AreBytes (c.hmac_sign secret s)
  pub verify-sign :
      (secret : String) (s : List ℕ) → c.hmac_verify secret (c.hmac_sign secret s) s ≡ true

-- `JSON.parse` reads back what `JSON.stringify` wrote, through UTF-8.
abbrev pub IsReadBack : Crypto → Payload → Type 0
IsReadBack c payload = c.parse_json (c.utf8_decode (c.utf8 (c.print_json payload))) ≡ some payload

-- ===== src/Tests/Coder.antt =====
-- Base64 as the platform's `btoa` and `atob` give it, with a checksum in place of the HMAC.
use crowdtic.Base.{
  ℕ, ◌+◌, ◌-◌, ◌*◌, ◌/◌, ◌%◌, ◌<◌, ◌≡◌, refl, ap, String, Bool, true, false, ◌&&◌, Option, none,
  some, List, [], ◌∷◌, ◌++◌, if◌then◌else◌, ltb, ◌==◌, arith, map, codes, length_utf16,
}
use crowdtic.Token.Base64.{Crypto}
use crowdtic.Token.Claims.{Payload, Json, null, bool, num, str, other}
use crowdtic.Token.Laws.{IsReadBack, AreBytes, IsStandard, IsBase64, CryptoLaws}

digit : ℕ → ℕ
digit n =
    if ltb n 26
    then n + b'A'
    else if ltb n 52
    then n + 71
    else if ltb n 62
    then n - 4
    else if n == 62
    then b'+'
    else b'/'

value : ℕ → ℕ
value c =
    if c == b'+'
    then 62
    else if c == b'/'
    then 63
    else if ltb c b'A'
    then c + 4
    else if ltb c b'a'
    then c - b'A'
    else c - 71

value-digit : (n : ℕ) → n < 64 → value (digit n) ≡ n
unfolding value digit
value-digit n h = ground arith

digit-IsStandard : (n : ℕ) → n < 64 → IsStandard (digit n)
unfolding digit
digit-IsStandard n h = ground arith

encode : List ℕ → List ℕ
encode [] = []
encode (a ∷ []) = digit (a / 4) ∷ digit (a % 4 * 16) ∷ b'=' ∷ b'=' ∷ []
encode (a ∷ b ∷ []) = digit (a / 4) ∷ digit (a % 4 * 16 + b / 16) ∷ digit (b % 16 * 4) ∷ b'=' ∷ []
encode (a ∷ b ∷ c ∷ r) =
    digit (a / 4)
    ∷ digit (a % 4 * 16 + b / 16)
    ∷ digit (b % 16 * 4 + c / 64)
    ∷ digit (c % 64)
    ∷ encode r

abbrev cons_three : ℕ → ℕ → ℕ → Option (List ℕ) → Option (List ℕ)
cons_three a b c none = none
cons_three a b c (some r) = some (a ∷ b ∷ c ∷ r)

decode : List ℕ → Option (List ℕ)
decode [] = some []
decode (w ∷ x ∷ y ∷ z ∷ r) =
    let rest = decode r in
    if y == b'='
    then some ((value w * 4 + value x / 16) ∷ [])
    else if z == b'='
    then some ((value w * 4 + value x / 16) ∷ (value x % 16 * 16 + value y / 4) ∷ [])
    else cons_three (value w * 4 + value x / 16) (value x % 16 * 16 + value y / 4)
        (value y % 4 * 64 + value z) rest
decode _ = none

not_pad : (n : ℕ) → n < 64 → (digit n == b'=') ≡ false
not_pad n h = ground (arith, (digit-IsStandard n h).2)

-- A decoded byte, by the numbers its digits stand for.
module _ (a b : ℕ) (la : a < 256) (lb : b < 256) where
  first_byte : value (digit (a / 4)) * 4 + value (digit (a % 4 * 16 + b / 16)) / 16 ≡ a
  first_byte =
      rw (value-digit (a / 4) (omega arith), value-digit (a % 4 * 16 + b / 16) (omega arith))
        (omega arith)

  second_byte :
      (c : ℕ)
      → c < 256
      → value (digit (a % 4 * 16 + b / 16)) % 16 * 16 + value (digit (b % 16 * 4 + c / 64)) / 4 ≡ b
  second_byte c lc =
      rw
        (
          value-digit (a % 4 * 16 + b / 16) (omega arith),
          value-digit (b % 16 * 4 + c / 64) (omega arith),
        )
        (omega arith)

third_byte :
    (b c : ℕ)
    → b < 256
    → c < 256
    → value (digit (b % 16 * 4 + c / 64)) % 4 * 64 + value (digit (c % 64)) ≡ c
third_byte b c lb lc =
    rw (value-digit (b % 16 * 4 + c / 64) (omega arith), value-digit (c % 64) (omega arith))
      (omega arith)

only_byte : (a : ℕ) → a < 256 → value (digit (a / 4)) * 4 + value (digit (a % 4 * 16)) / 16 ≡ a
only_byte a la =
    rw (value-digit (a / 4) (omega arith), value-digit (a % 4 * 16) (omega arith)) (omega arith)

last_byte :
    (a b : ℕ)
    → a < 256
    → b < 256
    → value (digit (a % 4 * 16 + b / 16)) % 16 * 16 + value (digit (b % 16 * 4)) / 4 ≡ b
last_byte a b la lb =
    rw (value-digit (a % 4 * 16 + b / 16) (omega arith), value-digit (b % 16 * 4) (omega arith))
      (omega arith)

decode-encode : (bytes : List ℕ) → AreBytes bytes → decode (encode bytes) ≡ some bytes
unfolding decode encode
decode-encode [] h = refl
decode-encode (a ∷ []) h = ap (λ x. some (x ∷ [])) (only_byte a h.0)
decode-encode (a ∷ b ∷ []) h =
    rw (not_pad (b % 16 * 4) (omega arith), first_byte a b h.0 h.1.0, last_byte a b h.0 h.1.0) refl
decode-encode (a ∷ b ∷ c ∷ r) h =
    let lb : b < 256 = h.1.0 in
    let lc : c < 256 = h.1.1.0 in
    rw
      (
        not_pad (b % 16 * 4 + c / 64) (omega arith),
        not_pad (c % 64) (omega arith),
        decode-encode r h.1.1.1,
        first_byte a b h.0 lb,
        second_byte a b h.0 lb c lc,
        third_byte b c lb lc,
      )
      refl

encode-IsBase64 : (bytes : List ℕ) → AreBytes bytes → IsBase64 (encode bytes)
unfolding encode
encode-IsBase64 [] h = record {
  body = [];
  pad = [];
  split = refl;
  standard = tt;
  padded = tt;
  short = omega arith;
  whole = refl;
}
encode-IsBase64 (a ∷ []) h =
    let la : a < 256 = h.0 in
    record {
      body = digit (a / 4) ∷ digit (a % 4 * 16) ∷ [];
      pad = b'=' ∷ b'=' ∷ [];
      split = refl;
      standard = (digit-IsStandard _ (omega arith), (digit-IsStandard _ (omega arith), tt));
      padded = (refl, (refl, tt));
      short = omega arith;
      whole = refl;
    }
encode-IsBase64 (a ∷ b ∷ []) h =
    let la : a < 256 = h.0 in
    let lb : b < 256 = h.1.0 in
    record {
      body = digit (a / 4) ∷ digit (a % 4 * 16 + b / 16) ∷ digit (b % 16 * 4) ∷ [];
      pad = b'=' ∷ [];
      split = refl;
      standard = (
        digit-IsStandard _ (omega arith),
        (digit-IsStandard _ (omega arith), (digit-IsStandard _ (omega arith), tt)),
      );
      padded = (refl, tt);
      short = omega arith;
      whole = refl;
    }
encode-IsBase64 (a ∷ b ∷ c ∷ r) h =
    let la : a < 256 = h.0 in
    let lb : b < 256 = h.1.0 in
    let lc : c < 256 = h.1.1.0 in
    let rest = encode-IsBase64 r h.1.1.1 in
    let front =
      digit (a / 4)
      ∷ digit (a % 4 * 16 + b / 16)
      ∷ digit (b % 16 * 4 + c / 64)
      ∷ digit (c % 64)
      ∷ [] in
    record {
      body = front ++ rest.body;
      pad = rest.pad;
      split = ap (λ t. front ++ t) rest.split;
      standard = (
        digit-IsStandard _ (omega arith),
        (
          digit-IsStandard _ (omega arith),
          (digit-IsStandard _ (omega arith), (digit-IsStandard _ (omega arith), rest.standard)),
        ),
      );
      padded = rest.padded;
      short = rest.short;
      whole = (let e = rest.whole in omega arith);
    }

sum : List ℕ → ℕ
sum [] = 0
sum (x ∷ s) = x + sum s

-- One byte that the secret's length and the text decide.
checksum : String → List ℕ → List ℕ
checksum secret s = (sum s + length_utf16 secret) % 256 ∷ []

same : List ℕ → List ℕ → Bool
same [] [] = true
same (x ∷ s) (y ∷ t) = (x == y) && same s t
same _ _ = false

same_self : (s : List ℕ) → same s s ≡ true
unfolding same
same_self [] = refl
same_self (x ∷ s) = ground (arith, same_self s)

bytes_of : List ℕ → List ℕ
bytes_of = map (λ x. x % 256)

bytes_of-AreBytes : (s : List ℕ) → AreBytes (bytes_of s)
unfolding bytes_of
bytes_of-AreBytes [] = tt
bytes_of-AreBytes (x ∷ s) = (omega arith, bytes_of-AreBytes s)

json_text : Json → List ℕ
json_text null = codes "null"
json_text (bool true) = codes "true"
json_text (bool false) = codes "false"
json_text (num n) = n ∷ []
json_text (str s) = codes s
json_text other = codes "{}"

print : Payload → List ℕ
print [] = []
print ((k, v) ∷ rest) = codes k ++ b':' ∷ json_text v ++ b',' ∷ print rest

-- A reader that knows one payload.
parse_of : Payload → List ℕ → Option Payload
parse_of known s = if same s (bytes_of (print known)) then some known else none

unfoldable pub crypto : Payload → Crypto
unfolding encode decode bytes_of print parse_of checksum same digit value json_text sum
crypto known = record {
  btoa = encode;
  atob = decode;
  utf8 = bytes_of;
  utf8_decode = λ s. s;
  print_json = print;
  parse_json = parse_of known;
  is_null = λ s. false;
  hmac_sign = checksum;
  hmac_verify = λ secret sig s. same sig (checksum secret s);
}

pub crypto-laws : (known : Payload) → CryptoLaws (crypto known)
unfolding crypto checksum
crypto-laws known = record {
  btoa-IsBase64 = encode-IsBase64;
  atob-btoa = decode-encode;
  utf8-AreBytes = bytes_of-AreBytes;
  hmac-AreBytes = λ secret s. (omega arith, tt);
  verify-sign = λ secret s. same_self (checksum secret s);
}

pub parse-print : (known : Payload) → IsReadBack (crypto known) known
unfolding crypto parse_of
parse-print known = rw (same_self (bytes_of (print known))) refl

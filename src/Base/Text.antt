-- ===== src/Base/Text.antt =====
-- What the code uses of the texts of the language: `trim`, `length`, truth and `parseInt`.
use Prim.Native.Char.{Char, code}
use Prim.Native.String.{String}
use Prim.Native.Nat.{ℕ, ◌+◌, ◌-◌, ◌*◌}
use mathlib.Core.Bool.{Bool, true, false, ◌&&◌, ◌||◌}
use mathlib.Core.Option.{Option, none, some}
use mathlib.Core.List.{List, [], ◌∷◌}
use text.Mathlib.Text.{◌==◌ as str_eq}
use crowdtic.Base.Tests.{leb, ◌==◌, if◌then◌else◌, get_or}

-- The white space and line ends of ECMAScript.
unfoldable pub is_space : ℕ → Bool
is_space c =
    c == 32
    || leb 9 c && leb c 13
    || c == 0xa0
    || c == 0x1680
    || leb 0x2000 c && leb c 0x200a
    || c == 0x2028
    || c == 0x2029
    || c == 0x202f
    || c == 0x205f
    || c == 0x3000
    || c == 0xfeff

-- `s === ""`; as a condition, `s` is true where this is false.
abbrev pub is_blank : String → Bool
is_blank s = str_eq s ""

trim_start : String → String
trim_start String.[] = ""
trim_start (String.◌∷◌ c s) =
    let rest = trim_start s in if is_space (code c) then rest else String.◌∷◌ c s

trim_end : String → String
trim_end String.[] = ""
trim_end (String.◌∷◌ c s) =
    let rest = trim_end s in if is_space (code c) && is_blank rest then "" else String.◌∷◌ c rest

unfoldable pub trim : String → String
unfolding trim_start trim_end is_space
trim s = trim_end (trim_start s)

-- `s.length`, in UTF-16 code units.
unfoldable pub length_utf16 : String → ℕ
length_utf16 String.[] = 0
length_utf16 (String.◌∷◌ c s) = (if leb 0x10000 (code c) then 2 else 1) + length_utf16 s

digits : Option ℕ → String → Option ℕ
digits acc String.[] = acc
digits acc (String.◌∷◌ c s) =
    let more = digits (some (10 * get_or acc 0 + (code c - b'0'))) s in
    if leb b'0' (code c) && leb (code c) b'9' then more else acc

skip_plus : String → String
skip_plus String.[] = ""
skip_plus (String.◌∷◌ c s) = if code c == b'+' then s else String.◌∷◌ c s

-- `parseInt(s, 10)`; `none` is NaN. Texts of negative numbers are outside the model.
unfoldable pub parse_int : String → Option ℕ
unfolding digits skip_plus trim_start is_space
parse_int s = digits none (skip_plus (trim_start s))

-- `s.split(",")[0]`
unfoldable pub before_comma : String → String
before_comma String.[] = ""
before_comma (String.◌∷◌ c s) =
    let rest = before_comma s in if code c == b',' then "" else String.◌∷◌ c rest

-- `s.replace(/\/+$/, "")`
unfoldable pub strip_slashes : String → String
strip_slashes String.[] = ""
strip_slashes (String.◌∷◌ c s) =
    let rest = strip_slashes s in if code c == b'/' && is_blank rest then "" else String.◌∷◌ c rest

-- An ASCII letter in lower case.
abbrev pub to_lower : ℕ → ℕ
to_lower c = if leb b'A' c && leb c b'Z' then c + 32 else c

-- What follows a prefix of lower-case letters, whatever the case of `s`.
after_prefix : List ℕ → String → Option String
after_prefix [] s = some s
after_prefix (c ∷ prefix) String.[] = none
after_prefix (c ∷ prefix) (String.◌∷◌ d s) =
    let rest = after_prefix prefix s in if to_lower (code d) == c then rest else none

starts_with_space : String → Bool
starts_with_space String.[] = false
starts_with_space (String.◌∷◌ c s) = is_space (code c)

strip_spaces : String → Option String → String
strip_spaces s none = s
strip_spaces s (some rest) = if starts_with_space rest then trim_start rest else s

-- `s.replace(/^Bearer\s+/i, "")`
unfoldable pub strip_bearer : String → String
unfolding after_prefix starts_with_space strip_spaces trim_start is_space
strip_bearer s = strip_spaces s (after_prefix (b'b' ∷ b'e' ∷ b'a' ∷ b'r' ∷ b'e' ∷ b'r' ∷ []) s)

-- The code units of a text of the Basic Multilingual Plane.
unfoldable pub codes : String → List ℕ
codes String.[] = []
codes (String.◌∷◌ c s) = code c ∷ codes s

unfoldable pub is_prefix : List ℕ → List ℕ → Bool
is_prefix [] s = true
is_prefix (c ∷ prefix) [] = false
is_prefix (c ∷ prefix) (d ∷ s) = c == d && is_prefix prefix s

-- `s.includes(part)`
unfoldable pub is_infix : List ℕ → List ℕ → Bool
is_infix part [] = is_prefix part []
is_infix part (c ∷ s) = is_prefix part (c ∷ s) || is_infix part s

-- Puts a character in front of the first part.
abbrev pub push_front : Char → List String → List String
push_front c [] = String.◌∷◌ c "" ∷ []
push_front c (part ∷ parts) = String.◌∷◌ c part ∷ parts

split_slash : String → List String
split_slash String.[] = "" ∷ []
split_slash (String.◌∷◌ c s) =
    let parts = split_slash s in if code c == b'/' then "" ∷ parts else push_front c parts

drop_blank : List String → List String
drop_blank [] = []
drop_blank (part ∷ parts) =
    let rest = drop_blank parts in if is_blank part then rest else part ∷ rest

-- `path.split("/").filter(Boolean)`
unfoldable pub segments : String → List String
unfolding split_slash drop_blank
segments path = drop_blank (split_slash path)

-- `s.toLowerCase().startsWith("bearer ")`, and then `s.slice(7).trim()`.
unfoldable pub bearer_token : String → Option String
unfolding after_prefix trim
bearer_token s = trim_some (after_prefix (b'b' ∷ b'e' ∷ b'a' ∷ b'r' ∷ b'e' ∷ b'r' ∷ 32 ∷ []) s)
  where
    trim_some : Option String → Option String
    trim_some none = none
    trim_some (some t) = some (trim t)

-- ===== src/Token/Claims.antt =====
-- The claims of a token: a JSON object whose values are read by name.
use crowdtic.Base.{
  ℕ, String, Bool, true, false, not, Option, none, some, List, [], ◌∷◌, if◌then◌else◌, str_eq, ◌==◌,
}

-- The values that a claim can take. Lists and objects are `other`.
pub data Json : Type 0 where
  null : Json
  bool : Bool → Json
  num : ℕ → Json
  str : String → Json
  other : Json

abbrev pub Payload : Type 0
Payload = List (String × Json)

-- `payload.key`; `none` is `undefined`.
unfoldable pub claim : String → Payload → Option Json
claim key [] = none
claim key ((k, v) ∷ rest) = if str_eq k key then some v else claim key rest

abbrev pub is_truthy : Option Json → Bool
is_truthy none = false
is_truthy (some null) = false
is_truthy (some (bool b)) = b
is_truthy (some (num n)) = not (n == 0)
is_truthy (some (str s)) = not (str_eq s "")
is_truthy (some other) = true

-- `claim === text`
abbrev pub is_text : String → Option Json → Bool
is_text want (some (str s)) = str_eq want s
is_text want _ = false

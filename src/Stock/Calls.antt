-- ===== src/Stock/Calls.antt =====
-- What the scripts of redis/lua call of Redis (`redis.call`), a parameter, and its documented
-- behaviour: a write changes what it names, and nothing else.
use crowdtic.Base.{
  ℕ, ◌≡◌, ◌<◌, String, str_eq, Bool, true, false, ◌==◌, ◌&&◌, ◌||◌, Option, none, some, List, [],
  ◌∷◌, if◌then◌else◌,
}
use crowdtic.Base.Int.{ℤ, ◌+ℤ◌, or_zero}

-- The keys that a script is given, as whole texts, and those that it puts together. Texts of
-- different constructors differ by what they begin with.
pub data Key : Type 0 where
  inventory seat : String → Key
  user_limit hold_key order_of_hold order_key : String → String → Key

pub data Field : Type 0 where
  status held_by hold_id expires_at sold_at sold_by user_id seats : Field

-- Fields that hold a number.
pub data Counter : Type 0 where
  available held sold version : Counter

abbrev pub key_eq : Key → Key → Bool
key_eq (inventory a) (inventory b) = str_eq a b
key_eq (seat a) (seat b) = str_eq a b
key_eq (user_limit a b) (user_limit c d) = str_eq a c && str_eq b d
key_eq (hold_key a b) (hold_key c d) = str_eq a c && str_eq b d
key_eq (order_of_hold a b) (order_of_hold c d) = str_eq a c && str_eq b d
key_eq (order_key a b) (order_key c d) = str_eq a c && str_eq b d
key_eq _ _ = false

abbrev number_of : Field → ℕ
number_of status = 0
number_of held_by = 1
number_of hold_id = 2
number_of expires_at = 3
number_of sold_at = 4
number_of sold_by = 5
number_of user_id = 6
number_of seats = 7

abbrev pub field_eq : Field → Field → Bool
field_eq f g = number_of f == number_of g

abbrev pub counter_eq : Counter → Counter → Bool
counter_eq available available = true
counter_eq held held = true
counter_eq sold sold = true
counter_eq version version = true
counter_eq _ _ = false

-- The value that a list of fields gives to one of them.
abbrev pub given : Field → List (Field × String) → Option String
given f [] = none
given f ((g, v) ∷ fs) = if field_eq g f then some v else given f fs

abbrev pub is_among : Field → List Field → Bool
is_among f [] = false
is_among f (g ∷ fs) = field_eq g f || is_among f fs

-- The first of two values that is there.
abbrev pub over : Option String → Option String → Option String
over none old = old
over (some v) old = some v

-- Reads, `TIME`, and writes. `HMSET` takes fields of texts, `HINCRBY` a counter, `SET` the seconds
-- of `EX`; `tostring` and the join of `table.concat` are those of Lua.
pub record Calls (W : Type 0) : Type 0 where
  pub hget : Key → Field → W → Option String
  pub hget_number : Key → Counter → W → Option ℤ
  pub get : Key → W → Option String
  pub get_number : Key → W → Option ℤ
  pub exists : Key → W → Bool
  pub time : W → ℕ × ℕ
  pub hmset : Key → List (Field × String) → W → W
  pub hdel : Key → List Field → W → W
  pub hincrby : Key → Counter → ℤ → W → W
  pub incrby : Key → ℤ → W → W
  pub set_ex : Key → String → ℕ → W → W
  pub expire : Key → ℕ → W → W
  pub pexpire : Key → ℕ → W → W
  pub persist : Key → W → W
  pub del : Key → W → W
  pub tostring : ℕ → String
  pub concat : List String → String

pub record HashLaws {W : Type 0} (r : Calls W) : Type 0 where
  pub hget-hmset :
      (k j : Key) (fs : List (Field × String)) (g : Field) (w : W)
      → r.hget j g (r.hmset k fs w)
        ≡ (if key_eq k j then over (given g fs) (r.hget j g w) else r.hget j g w)
  pub hget-hdel :
      (k j : Key) (fs : List Field) (g : Field) (w : W)
      → r.hget j g (r.hdel k fs w) ≡ (if key_eq k j && is_among g fs then none else r.hget j g w)
  pub hget-hincrby :
      (k j : Key) (c : Counter) (n : ℤ) (g : Field) (w : W)
      → r.hget j g (r.hincrby k c n w) ≡ r.hget j g w
  pub hget-incrby :
      (k j : Key) (n : ℤ) (g : Field) (w : W) → r.hget j g (r.incrby k n w) ≡ r.hget j g w
  pub hget-set_ex :
      (k j : Key) (v : String) (n : ℕ) (g : Field) (w : W)
      → key_eq k j ≡ false
      → r.hget j g (r.set_ex k v n w) ≡ r.hget j g w
  pub hget-expire :
      (k j : Key) (n : ℕ) (g : Field) (w : W) → 0 < n → r.hget j g (r.expire k n w) ≡ r.hget j g w
  pub hget-pexpire :
      (k j : Key) (n : ℕ) (g : Field) (w : W) → 0 < n → r.hget j g (r.pexpire k n w) ≡ r.hget j g w
  pub hget-persist : (k j : Key) (g : Field) (w : W) → r.hget j g (r.persist k w) ≡ r.hget j g w
  pub hget-del :
      (k j : Key) (g : Field) (w : W)
      → r.hget j g (r.del k w) ≡ (if key_eq k j then none else r.hget j g w)

-- The same of the numbers, in hashes and by themselves.
pub record NumberLaws {W : Type 0} (r : Calls W) : Type 0 where
  pub number-hmset :
      (k j : Key) (fs : List (Field × String)) (c : Counter) (w : W)
      → r.hget_number j c (r.hmset k fs w) ≡ r.hget_number j c w
  pub number-hdel :
      (k j : Key) (fs : List Field) (c : Counter) (w : W)
      → r.hget_number j c (r.hdel k fs w) ≡ r.hget_number j c w
  pub number-hincrby :
      (k j : Key) (d : Counter) (n : ℤ) (c : Counter) (w : W)
      → r.hget_number j c (r.hincrby k d n w) ≡ (
          if key_eq k j && counter_eq d c
          then some (or_zero (r.hget_number j c w) +ℤ n)
          else r.hget_number j c w)
  pub number-incrby :
      (k j : Key) (n : ℤ) (c : Counter) (w : W)
      → r.hget_number j c (r.incrby k n w) ≡ r.hget_number j c w
  pub number-expire :
      (k j : Key) (n : ℕ) (c : Counter) (w : W)
      → 0 < n
      → r.hget_number j c (r.expire k n w) ≡ r.hget_number j c w
  pub number-pexpire :
      (k j : Key) (n : ℕ) (c : Counter) (w : W)
      → 0 < n
      → r.hget_number j c (r.pexpire k n w) ≡ r.hget_number j c w
  pub number-persist :
      (k j : Key) (c : Counter) (w : W) → r.hget_number j c (r.persist k w) ≡ r.hget_number j c w
  pub number-del :
      (k j : Key) (c : Counter) (w : W)
      → r.hget_number j c (r.del k w) ≡ (if key_eq k j then none else r.hget_number j c w)
  pub limit-hmset :
      (k j : Key) (fs : List (Field × String)) (w : W)
      → key_eq k j ≡ false
      → r.get_number j (r.hmset k fs w) ≡ r.get_number j w
  pub limit-hdel :
      (k j : Key) (fs : List Field) (w : W) → r.get_number j (r.hdel k fs w) ≡ r.get_number j w
  pub limit-hincrby :
      (k j : Key) (c : Counter) (n : ℤ) (w : W)
      → key_eq k j ≡ false
      → r.get_number j (r.hincrby k c n w) ≡ r.get_number j w
  pub limit-incrby :
      (k j : Key) (n : ℤ) (w : W)
      → r.get_number j (r.incrby k n w)
        ≡ (if key_eq k j then some (or_zero (r.get_number j w) +ℤ n) else r.get_number j w)
  pub limit-expire :
      (k j : Key) (n : ℕ) (w : W) → 0 < n → r.get_number j (r.expire k n w) ≡ r.get_number j w
  pub limit-pexpire :
      (k j : Key) (n : ℕ) (w : W) → 0 < n → r.get_number j (r.pexpire k n w) ≡ r.get_number j w
  pub limit-persist : (k j : Key) (w : W) → r.get_number j (r.persist k w) ≡ r.get_number j w
  pub limit-del :
      (k j : Key) (w : W)
      → r.get_number j (r.del k w) ≡ (if key_eq k j then none else r.get_number j w)

-- ===== src/Room/Seats.antt =====
-- How often a user stands in a queue.
use crowdtic.Base.{
  suc, some, none, ℕ, ◌+◌, ◌≤◌, ◌≡◌, refl, ◌≢◌, String, true, false, List, [], ◌∷◌, ◌++◌,
  if◌then◌else◌, arith, str_eq, eq_iff, leb, Bool-cases, inl, inr,
}
use crowdtic.Platform.{Entry}
use crowdtic.Room.Queue.{find_index, has, without, insert_entry, sort_entries}

-- 1 for the user's own name.
abbrev pub one_for : String → String → ℕ
one_for user m = if str_eq m user then 1 else 0

unfoldable pub count : String → List Entry → ℕ
count user [] = 0
count user (e ∷ es) = one_for user e.m + count user es

pub count-append_one :
    (user : String) (es : List Entry) (e : Entry)
    → count user (es ++ e ∷ []) ≡ count user es + one_for user e.m
unfolding count
count-append_one user [] e = omega arith
count-append_one user (x ∷ es) e = omega (arith, count-append_one user es e)

count-insert_entry :
    (user : String) (e : Entry) (es : List Entry)
    → count user (insert_entry e es) ≡ one_for user e.m + count user es
unfolding count insert_entry
count-insert_entry user e [] = refl
count-insert_entry user e (x ∷ es) = elim (Bool-cases (leb e.s x.s)) [
  | inl first ↦ rw first
  | inr later ↦ rw later (omega (arith, count-insert_entry user e es))
]

pub count-sort_entries :
    (user : String) (es : List Entry) → count user (sort_entries es) ≡ count user es
unfolding sort_entries count
count-sort_entries user [] = refl
count-sort_entries user (e ∷ es) =
    omega (arith, count-insert_entry user e (sort_entries es), count-sort_entries user es)

pub count-without_self : (user : String) (es : List Entry) → count user (without user es) ≡ 0
unfolding count without
count-without_self user [] = refl
count-without_self user (e ∷ es) = elim (Bool-cases (str_eq e.m user)) [
  | inl same ↦ rw same (count-without_self user es)
  | inr away ↦ rw (away, count, away) (omega (arith, count-without_self user es))
]

pub count-without_ne :
    (user other : String) (es : List Entry)
    → other ≢ user
    → count other (without user es) ≡ count other es
unfolding count without
count-without_ne user other [] h = refl
count-without_ne user other (e ∷ es) h =
    ground (arith, eq_iff e.m user, eq_iff e.m other, count-without_ne user other es h)

pub count_of_not-has : (user : String) (es : List Entry) → has user es ≡ false → count user es ≡ 0
unfolding count has
count_of_not-has user [] h = refl
count_of_not-has user (e ∷ es) h = ground (arith, count_of_not-has user es)

pub count_of_has : (user : String) (es : List Entry) → has user es ≡ true → 1 ≤ count user es
unfolding count has
count_of_has user [] h = cc
count_of_has user (e ∷ es) h = ground (arith, count_of_has user es)

found_later :
    (user : String) (e : Entry) (es : List Entry)
    → str_eq e.m user ≡ false
    → (i : ℕ) × (find_index user es ≡ some i)
    → (i : ℕ) × (find_index user (e ∷ es) ≡ some i)
unfolding find_index
found_later user e es away (i, q) = (suc i, rw (away, q) refl)

pub find_index_of_count :
    (user : String) (es : List Entry) → 1 ≤ count user es → (i : ℕ) × (find_index user es ≡ some i)
unfolding count find_index
find_index_of_count user [] h = absurd (omega arith)
find_index_of_count user (e ∷ es) h = elim (Bool-cases (str_eq e.m user)) [
  | inl same ↦ (0, rw same refl)
  | inr away ↦
      let k : 1 ≤ 0 + count user es = rw away at h in
      found_later user e es away (find_index_of_count user es (omega (arith, k)))
]

pub find_index_of_nobody :
    (user : String) (es : List Entry) → count user es ≡ 0 → find_index user es ≡ none
unfolding count find_index
find_index_of_nobody user [] h = refl
find_index_of_nobody user (e ∷ es) h = elim (Bool-cases (str_eq e.m user)) [
  | inl same ↦ absurd (let k : 1 + count user es ≡ 0 = rw same at h in omega arith)
  | inr away ↦
      let k : 0 + count user es ≡ 0 = rw away at h in
      rw (away, find_index_of_nobody user es (omega (arith, k))) refl
]

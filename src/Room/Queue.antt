-- ===== src/Room/Queue.antt =====
-- A stored queue as the handlers work on it: an array of `{ m, s }`.
use crowdtic.Base.{
  ℕ, suc, ◌+◌, ◌*◌, String, Bool, false, ◌||◌, Option, none, some, List, [], ◌∷◌, leb,
  if◌then◌else◌, str_eq,
}
use crowdtic.Platform.{Entry, Value, entries}
use crowdtic.Shuffle.{random_unit}

-- `await kv.get(key, "json") as Array<{ m, s }> | null`
abbrev pub as_entries : Option Value → Option (List Entry)
as_entries (some (entries es)) = some es
as_entries _ = none

-- A number of milliseconds as a score.
unfoldable pub ms : ℕ → ℕ
unfolding random_unit
ms n = n * random_unit

-- `arr.find((x) => x.m === userId)`, as a condition.
unfoldable pub has : String → List Entry → Bool
has user [] = false
has user (e ∷ es) = str_eq e.m user || has user es

abbrev pub bump_index : Option ℕ → Option ℕ
bump_index none = none
bump_index (some i) = some (suc i)

-- `arr.findIndex((x) => x.m === userId)`; `none` is -1.
unfoldable pub find_index : String → List Entry → Option ℕ
find_index user [] = none
find_index user (e ∷ es) =
    let rest = find_index user es in if str_eq e.m user then some 0 else bump_index rest

-- `arr.filter((x) => x.m !== userId)`
unfoldable pub without : String → List Entry → List Entry
without user [] = []
without user (e ∷ es) = let rest = without user es in if str_eq e.m user then rest else e ∷ rest

-- `arr.sort((a, b) => a.s - b.s)`: the sort of the language is stable.
unfoldable pub insert_entry : Entry → List Entry → List Entry
insert_entry e [] = e ∷ []
insert_entry e (x ∷ es) = if leb e.s x.s then e ∷ x ∷ es else x ∷ insert_entry e es

unfoldable pub sort_entries : List Entry → List Entry
unfolding insert_entry
sort_entries [] = []
sort_entries (e ∷ es) = insert_entry e (sort_entries es)

-- `members.map((m, i) => ({ m, s: now + i }))`
unfoldable pub stamp : ℕ → List String → List Entry
unfolding ms
stamp now [] = []
stamp now (m ∷ members) = record { m = m; s = ms now } ∷ stamp (now + 1) members

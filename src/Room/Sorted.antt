-- ===== src/Room/Sorted.antt =====
-- The sort of a queue by score.
use mathlib.Core.List.Perm
use crowdtic.Base.{
  length, ap, ◌∙◌, ◌≡◌, refl, ℕ, zero, suc, ◌≤◌, List, [], ◌∷◌, Perm, All, arith, leb, take, drop,
  Bool-cases, inl, inr,
}
use crowdtic.Platform.{Entry}
use crowdtic.Room.Queue.{insert_entry, sort_entries}

-- Every entry of the list comes no earlier than `e`.
abbrev pub NotBefore : Entry → List Entry → Type 0
NotBefore e = All (λ x. e.s ≤ x.s)

abbrev pub IsSorted : List Entry → Type 0
IsSorted [] = Unit {0}
IsSorted (e ∷ es) = NotBefore e es × IsSorted es

insert_entry-perm : (e : Entry) (es : List Entry) → Perm (insert_entry e es) (e ∷ es)
unfolding insert_entry
insert_entry-perm e [] = Perm.refl (e ∷ [])
insert_entry-perm e (x ∷ es) = elim (Bool-cases (leb e.s x.s)) [
  | inl first ↦ rw first (Perm.refl (e ∷ x ∷ es))
  | inr later ↦ rw later (Perm.trans (Perm.cons x (insert_entry-perm e es)) (Perm.swap e x es))
]

pub sort_entries-perm : (es : List Entry) → Perm (sort_entries es) es
unfolding sort_entries
sort_entries-perm [] = Perm.refl []
sort_entries-perm (e ∷ es) =
    Perm.trans (insert_entry-perm e (sort_entries es)) (Perm.cons e (sort_entries-perm es))

length-insert_entry : (e : Entry) (es : List Entry) → length (insert_entry e es) ≡ suc (length es)
unfolding insert_entry
length-insert_entry e [] = refl
length-insert_entry e (x ∷ es) = ground (arith, length-insert_entry e es)

pub length-sort_entries : (es : List Entry) → length (sort_entries es) ≡ length es
unfolding sort_entries
length-sort_entries [] = refl
length-sort_entries (e ∷ es) =
    length-insert_entry e (sort_entries es) ∙ ap suc (length-sort_entries es)

NotBefore-trans : (a b : Entry) (es : List Entry) → a.s ≤ b.s → NotBefore b es → NotBefore a es
NotBefore-trans a b [] h k = tt
NotBefore-trans a b (x ∷ es) h k = (omega arith, NotBefore-trans a b es h k.1)

NotBefore-insert_entry :
    (a e : Entry) (es : List Entry) → a.s ≤ e.s → NotBefore a es → NotBefore a (insert_entry e es)
unfolding insert_entry
NotBefore-insert_entry a e [] h k = (h, tt)
NotBefore-insert_entry a e (x ∷ es) h k = ground (arith, NotBefore-insert_entry a e es h k.1)

insert_entry-IsSorted : (e : Entry) (es : List Entry) → IsSorted es → IsSorted (insert_entry e es)
unfolding insert_entry
insert_entry-IsSorted e [] h = (tt, tt)
insert_entry-IsSorted e (x ∷ es) h = elim (Bool-cases (leb e.s x.s)) [
  | inl first ↦ rw first ((ground arith, NotBefore-trans e x es (ground arith) h.0), h)
  | inr later ↦
      rw later (NotBefore-insert_entry x e es (ground arith) h.0, insert_entry-IsSorted e es h.1)
]

pub sort_entries-IsSorted : (es : List Entry) → IsSorted (sort_entries es)
unfolding sort_entries
sort_entries-IsSorted [] = tt
sort_entries-IsSorted (e ∷ es) =
    insert_entry-IsSorted e (sort_entries es) (sort_entries-IsSorted es)

NotBefore-drop : (e : Entry) (n : ℕ) (es : List Entry) → NotBefore e es → NotBefore e (drop n es)
NotBefore-drop e zero es h = h
NotBefore-drop e (suc n) [] h = tt
NotBefore-drop e (suc n) (x ∷ es) h = NotBefore-drop e n es h.1

-- What a sorted queue gives up at its front comes no later than what it keeps.
pub take-NotBefore-drop :
    (n : ℕ) (es : List Entry) → IsSorted es → All (λ e. NotBefore e (drop n es)) (take n es)
take-NotBefore-drop zero es h = tt
take-NotBefore-drop (suc n) [] h = tt
take-NotBefore-drop (suc n) (e ∷ es) h = (NotBefore-drop e n es h.0, take-NotBefore-drop n es h.1)

-- ===== src/Room/Pushed.antt =====
-- A queue with a user put in who may stand in it already.
use crowdtic.Base.{
  ℕ, ◌≤◌, ◌≡◌, refl, ◌∙◌, inl, inr, ◌≢◌, String, true, false, List, [], ◌∷◌, ◌++◌, is_empty, arith,
  Bool-cases, eq_iff,
}
use text.Mathlib.TextPositions.{eq_refl}
use crowdtic.Platform.{Entry}
use crowdtic.Room.Queue.{has, sort_entries}
use crowdtic.Room.Join.{push_pool}
use crowdtic.Room.Seats.{
  count, count-append_one, count-sort_entries, count_of_not-has, count_of_has,
}
use crowdtic.Room.Store.{}

-- A list with `user` put in if it has no entry yet.
pub record IsPushed (user : String) (old new : List Entry) : Type 0 where
  pub fresh : has user old ≡ false → count user new ≡ 1
  pub again : has user old ≡ true → count user new ≡ count user old
  pub others : (other : String) → other ≢ user → count other new ≡ count other old

pub append_one-IsPushed :
    (user : String) (s : ℕ) (old : List Entry)
    → has user old ≡ false
    → IsPushed user old (old ++ record { m = user; s = s } ∷ [])
append_one-IsPushed user s old absent = record {
  fresh = λ _.
      rw
        (
          count-append_one user old (record { m = user; s = s }),
          count_of_not-has user old absent,
          eq_refl user,
        )
        (omega arith);
  again = λ h. cc;
  others = λ other ne.
      ground (arith, count-append_one other old (record { m = user; s = s }), eq_iff user other);
}

pub same-IsPushed : (user : String) (old : List Entry) → has user old ≡ true → IsPushed user old old
same-IsPushed user old present = record { fresh = λ h. cc; again = λ _. refl; others = λ _ _. refl }

pub sort-IsPushed :
    (user : String) (old new : List Entry)
    → IsPushed user old new
    → IsPushed user old (sort_entries new)
sort-IsPushed user old new h = record {
  fresh = λ e. count-sort_entries user new ∙ h.fresh e;
  again = λ e. count-sort_entries user new ∙ h.again e;
  others = λ other ne. count-sort_entries other new ∙ h.others other ne;
}

pub push_pool-IsPushed :
    (user : String) (s : ℕ) (old : List Entry) → IsPushed user old (push_pool user s old)
push_pool-IsPushed user s old = elim (Bool-cases (has user old)) [
  | inl present ↦ rw present (same-IsPushed user old present)
  | inr absent ↦ rw absent (append_one-IsPushed user s old absent)
]

pub empty-count : (user : String) (es : List Entry) → is_empty es ≡ true → count user es ≡ 0
unfolding count
empty-count user [] h = refl
empty-count user (e ∷ es) h = cc

pub pushed_once :
    (user : String) (old new : List Entry)
    → IsPushed user old new
    → count user old ≤ 1
    → count user new ≡ 1
pushed_once user old new h le = elim (Bool-cases (has user old)) [
  | inl present ↦ omega (arith, h.again present, count_of_has user old present)
  | inr absent ↦ h.fresh absent
]

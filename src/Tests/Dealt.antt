-- ===== src/Tests/Dealt.antt =====
-- Random numbers from a list, and the shuffle that puts three users into a given order.
use mathlib.Core.List.Perm
use crowdtic.Base.{ℕ, ◌≡◌, refl, ◌<◌, true, none, List, [], ◌∷◌, All, arith, ok}
use crowdtic.Tests.Latin.{is_latin}
use crowdtic.Platform.{Platform, unreachable}
use crowdtic.Shuffle.{shuffle_in_place, random_unit}
use crowdtic.Shuffle.Reached.{shuffle_in_place-Reaches}

next_of : List ℕ → ℕ × List ℕ
next_of [] = (0, [])
next_of (r ∷ rs) = (r, rs)

abbrev dealer : Platform (List ℕ)
unfolding next_of
dealer = record {
  date_now = λ w. (0, w);
  math_random = next_of;
  random_uuid = λ w. ("0a1b", w);
  kv_get = λ ns k w. (ok none, w);
  kv_put = λ ns k v ttl w. (ok tt, w);
  kv_list = λ ns w. (ok [], w);
  fetch_redis = λ url token args w. (unreachable "", w);
  fetch_pipeline = λ url token batch w. (unreachable "", w);
  fetch_site_verify = λ secret token ip w. (ok (record { success = true; error_codes = "" }), w);
  date_parse = λ s. none;
  is_header_value = is_latin;
}

shuffle_in_place-Reaches_example : ∥ (
    (rs : List ℕ) × All (λ r. r < random_unit) rs
    × ((shuffle_in_place {A = ℕ} dealer (1 ∷ 2 ∷ 3 ∷ []) rs).0 ≡ 3 ∷ 1 ∷ 2 ∷ [])) ∥₁
unfolding next_of random_unit
shuffle_in_place-Reaches_example =
    shuffle_in_place-Reaches {A = ℕ} dealer (λ rs. rs) (λ r rs. refl) (1 ∷ 2 ∷ 3 ∷ [])
      (3 ∷ 1 ∷ 2 ∷ []) (omega arith)
      (Perm.trans (Perm.swap 1 3 (2 ∷ [])) (Perm.cons 1 (Perm.swap 2 3 [])))

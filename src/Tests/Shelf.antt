-- ===== src/Tests/Shelf.antt =====
-- A Redis of sorted sets in memory.
use crowdtic.Base.{
  ℕ, suc, ◌≡◌, ◌≢◌, ◌⊎◌, inl, inr, refl, sym, ◌∙◌, String, str_eq, eq_iff, Bool, true, false, ◌&&◌,
  Bool-cases, Option, none, some, List, [], ◌∷◌, if◌then◌else◌, arith, ok,
}
use crowdtic.Tests.Latin.{is_latin}
use crowdtic.Platform.{Platform, Key, Arg, word, key, score, Reply, int, nil, replied}
use crowdtic.Room.Sets.{RedisLaws}
use crowdtic.Tests.World.{key_eq, key_eq_self, key_eq_ne, key_eq_sound}

abbrev pub Shelf : Type 0
Shelf = List (Key × String × ℕ)

same : Key → String → Key → String → Bool
same k m j n = key_eq k j && str_eq m n

same_self : (k : Key) (m : String) → same k m k m ≡ true
unfolding same
same_self k m = rw (key_eq_self k) ((eq_iff m m).1 refl)

same_ne : (k j : Key) (m n : String) → (k ≢ j) ⊎ (m ≢ n) → same k m j n ≡ false
unfolding same
same_ne k j m n (inl ne) = rw (key_eq_ne k j ne) refl
same_ne k j m n (inr ne) = ground (arith, eq_iff m n, ne)

same_eq : (k j : Key) (m n : String) → same k m j n ≡ true → (k ≡ j) × (m ≡ n)
unfolding same
same_eq k j m n e = elim (Bool-cases (key_eq k j)) [
  | inl keys ↦ (key_eq_sound k j keys, ground (arith, eq_iff m n, keys, e))
  | inr other ↦ ground (arith, other, e)
]

lookup : Shelf → Key → String → Option ℕ
lookup [] j n = none
lookup ((k, m, s) ∷ w) j n = let rest = lookup w j n in if same k m j n then some s else rest

drop_one : Key → String → Shelf → Shelf
drop_one j n [] = []
drop_one j n ((k, m, s) ∷ w) =
    let rest = drop_one j n w in if same k m j n then rest else (k, m, s) ∷ rest

card : Shelf → Key → ℕ
card [] j = 0
card ((k, m, s) ∷ w) j = let rest = card w j in if key_eq k j then suc rest else rest

put : Key → ℕ → String → Shelf → Shelf
unfolding drop_one
put k s m w = (k, m, s) ∷ drop_one k m w

reply_to : List Arg → Shelf → Reply
reply_to (word c ∷ key k ∷ []) w = int (card w k)
reply_to (word c ∷ key k ∷ score s ∷ word m ∷ []) w = int 1
reply_to (word c ∷ key k ∷ word m ∷ []) w = if str_eq c "ZRANK" then nil else int 1
reply_to _ w = nil

moved : List Arg → Shelf → Shelf
moved (word c ∷ key k ∷ score s ∷ word m ∷ []) w = put k s m w
moved (word c ∷ key k ∷ word m ∷ []) w = if str_eq c "ZREM" then drop_one k m w else w
moved _ w = w

lookup-drop_self : (k : Key) (m : String) (w : Shelf) → lookup (drop_one k m w) k m ≡ none
unfolding lookup drop_one
lookup-drop_self k m [] = refl
lookup-drop_self k m ((j, n, s) ∷ w) = ground (arith, lookup-drop_self k m w)

lookup-drop_other :
    (k j : Key) (m n : String) (w : Shelf)
    → (k ≢ j) ⊎ (m ≢ n)
    → lookup (drop_one k m w) j n ≡ lookup w j n
unfolding lookup drop_one
lookup-drop_other k j m n [] h = refl
lookup-drop_other k j m n ((i, l, s) ∷ w) h = elim (Bool-cases (same i l k m)) [
  | inl e ↦
      let (key_eq, name_eq) = same_eq i k l m e in
      let off : (i ≢ j) ⊎ (l ≢ n) = elim h [
        | inl ne ↦ inl (λ q. ne (sym key_eq ∙ q))
        | inr ne ↦ inr (λ q. ne (sym name_eq ∙ q))
      ] in
      rw (e, same_ne i j l n off) (lookup-drop_other k j m n w h)
  | inr e ↦ rw (e, lookup-drop_other k j m n w h) refl
]

lookup-put_self : (k : Key) (s : ℕ) (m : String) (w : Shelf) → lookup (put k s m w) k m ≡ some s
unfolding lookup put
lookup-put_self k s m w = rw (same_self k m) refl

lookup-put_other :
    (k j : Key) (s : ℕ) (m n : String) (w : Shelf)
    → (k ≢ j) ⊎ (m ≢ n)
    → lookup (put k s m w) j n ≡ lookup w j n
unfolding lookup put
lookup-put_other k j s m n w h = rw (same_ne k j m n h) (lookup-drop_other k j m n w h)

lookup-card : (k : Key) (m : String) (w : Shelf) → card w k ≡ 0 → lookup w k m ≡ none
unfolding lookup card same
lookup-card k m [] h = refl
lookup-card k m ((j, n, s) ∷ w) h = ground (arith, h, lookup-card k m w)

pub shelf : Platform Shelf
unfolding reply_to moved
shelf = record {
  date_now = λ w. (1700000000000, w);
  math_random = λ w. (5, w);
  random_uuid = λ w. ("0a1b", w);
  kv_get = λ ns k w. (ok none, w);
  kv_put = λ ns k v ttl w. (ok tt, w);
  kv_list = λ ns w. (ok [], w);
  fetch_redis = λ url token args w. (replied (reply_to args w), moved args w);
  fetch_pipeline = λ url token batch w. (replied nil, w);
  fetch_site_verify = λ secret token ip w. (ok (record { success = true; error_codes = "" }), w);
  date_parse = λ s. none;
  is_header_value = is_latin;
}

pub shelf-laws : (url token : String) → RedisLaws shelf url token
unfolding shelf reply_to moved
shelf-laws url token = record {
  score_of = lookup;
  card_of = card;
  rank_of = λ w k m. nil;
  zadd = put;
  zrem = drop_one;
  sadd = λ k m w. w;
  zadd_lem = λ k s m w. (1, refl);
  zrem_lem = λ k m w. (1, refl);
  sadd_lem = λ k m w. (1, refl);
  zcard_lem = λ k w. refl;
  zrank_lem = λ k m w. refl;
  score-zadd_self = λ k s m w. lookup-put_self k s m w;
  score-zadd_other = λ k j s m n w h. lookup-put_other k j s m n w h;
  score-zrem_self = lookup-drop_self;
  score-zrem_other = λ k j m n w h. lookup-drop_other k j m n w h;
  score-sadd = λ k m w. refl;
  card-sadd = λ k m w. refl;
  score-card = lookup-card;
}

pub nobody-score :
    (url token : String) (k : Key) (m : String) → (shelf-laws url token).score_of [] k m ≡ none
unfolding shelf-laws lookup
nobody-score url token k m = refl

-- ===== src/Tests/World.antt =====
-- A world of a clock, a counter of ids and an association list in place of the KV namespaces.
use crowdtic.Base.{
  ℕ, suc, ◌≡◌, refl, ap, ◌∙◌, sym, ◌≢◌, String, str_eq, eq_iff, Bool, true, false, ◌&&◌, Option,
  none, some, List, [], ◌∷◌, if◌then◌else◌, ◌==◌, ok, arith, Bool-cases, ◌↔◌, inl, inr, get_or,
  get_elem?, not, ◌*◌, ltb, throw, ◌≤◌, ◌<◌,
}
use crowdtic.Tests.Latin.{is_latin}
use crowdtic.Platform.{
  Platform, Namespace, waiting_room_kv, rate_limit_kv, Key, rl_ip, rl_fp, bucket_key, pool_key,
  active_key, admitted_key, meta_key, jti_key, waiting_index, Value, replied, nil,
}
use crowdtic.Room.Store.{KvLaws}

-- A key as numbers and texts.
abbrev Code : Type 0
Code = ℕ × String × String × ℕ

code_of : Key → Code
code_of (rl_ip s n) = (0, s, "", n)
code_of (rl_fp s n) = (1, s, "", n)
code_of (bucket_key s) = (2, s, "", 0)
code_of (pool_key s) = (3, s, "", 0)
code_of (active_key s) = (4, s, "", 0)
code_of (admitted_key s) = (5, s, "", 0)
code_of (meta_key s) = (6, s, "", 0)
code_of (jti_key s t) = (7, s, t, 0)
code_of waiting_index = (8, "", "", 0)

key_of : Code → Key
key_of (tag, s, t, n) =
    get_or
      (get_elem?
        (rl_ip s n
          ∷ rl_fp s n
          ∷ bucket_key s
          ∷ pool_key s
          ∷ active_key s
          ∷ admitted_key s
          ∷ meta_key s
          ∷ jti_key s t
          ∷ [])
        tag)
      waiting_index

key_of-code_of : (k : Key) → key_of (code_of k) ≡ k
unfolding key_of code_of
key_of-code_of (rl_ip s n) = refl
key_of-code_of (rl_fp s n) = refl
key_of-code_of (bucket_key s) = refl
key_of-code_of (pool_key s) = refl
key_of-code_of (active_key s) = refl
key_of-code_of (admitted_key s) = refl
key_of-code_of (meta_key s) = refl
key_of-code_of (jti_key s t) = refl
key_of-code_of waiting_index = refl

same_code : Code → Code → Bool
same_code (a, s, t, n) (b, u, v, m) = (a == b) && str_eq s u && str_eq t v && (n == m)

same_code_iff : (x y : Code) → (same_code x y ≡ true) ↔ (x ≡ y)
unfolding same_code
same_code_iff (a, s, t, n) (b, u, v, m) = ground (arith, eq_iff s u, eq_iff t v)

pub key_eq : Key → Key → Bool
key_eq k j = same_code (code_of k) (code_of j)

pub key_eq_self : (k : Key) → key_eq k k ≡ true
unfolding key_eq
key_eq_self k = (same_code_iff _ _).1 refl

pub key_eq_sound : (k j : Key) → key_eq k j ≡ true → k ≡ j
unfolding key_eq
key_eq_sound k j e = sym (key_of-code_of k) ∙ ap key_of ((same_code_iff _ _).0 e) ∙ key_of-code_of j

pub key_eq_ne : (k j : Key) → k ≢ j → key_eq k j ≡ false
key_eq_ne k j ne = elim (Bool-cases (key_eq k j)) [
  | inl e ↦ absurd (ne (key_eq_sound k j e))
  | inr e ↦ e
]

pub record World : Type 0 where
  pub clock : ℕ
  pub drawn : ℕ
  pub kv_store : List ((Namespace × Key) × Value)

abbrev is_waiting_room : Namespace → Bool
is_waiting_room waiting_room_kv = true
is_waiting_room rate_limit_kv = false

same_namespace : Namespace → Namespace → Bool
same_namespace waiting_room_kv ns = is_waiting_room ns
same_namespace rate_limit_kv ns = not (is_waiting_room ns)

same_namespace_self : (ns : Namespace) → same_namespace ns ns ≡ true
unfolding same_namespace
same_namespace_self waiting_room_kv = refl
same_namespace_self rate_limit_kv = refl

unfoldable pub find : List ((Namespace × Key) × Value) → Namespace → Key → Option Value
unfolding same_namespace key_eq same_code code_of
find [] ns k = none
find (((ms, j), v) ∷ rest) ns k =
    if same_namespace ms ns && key_eq j k then some v else find rest ns k

module _ (ns : Namespace) (k : Key) (v : Value) (rest : List ((Namespace × Key) × Value)) where
  pub find_self : find (((ns, k), v) ∷ rest) ns k ≡ some v
  unfolding find
  find_self = rw (same_namespace_self, key_eq_self) refl

  pub find_ne : (j : Key) → k ≢ j → find (((ns, k), v) ∷ rest) ns j ≡ find rest ns j
  unfolding find
  find_ne j ne = rw (same_namespace_self, key_eq_ne k j ne) refl

too_short : Option ℕ → Bool
too_short none = false
too_short (some ttl) = ltb ttl 60

not_short : (ttl : ℕ) → 60 ≤ ttl → ltb ttl 60 ≡ false
not_short ttl h = ground (arith, h)

is_short : (ttl : ℕ) → ttl < 60 → ltb ttl 60 ≡ true
is_short ttl h = ground (arith, h)

-- A millisecond passes at each reading of the clock.
unfoldable pub platform : Platform World
unfolding find same_namespace key_eq same_code code_of too_short
platform = record {
  date_now = λ w. (w.clock, record { clock = suc w.clock; drawn = w.drawn; kv_store = w.kv_store });
  math_random = λ w.
      (w.drawn * 1000003, record { clock = w.clock; drawn = suc w.drawn; kv_store = w.kv_store });
  random_uuid =
      λ w. ("0a1b", record { clock = w.clock; drawn = suc w.drawn; kv_store = w.kv_store });
  kv_get = λ ns k w. (ok (find w.kv_store ns k), w);
  kv_put = λ ns k v ttl w. if too_short ttl then (throw "KV PUT failed", w) else (
    ok tt,
    record { clock = w.clock; drawn = w.drawn; kv_store = ((ns, k), v) ∷ w.kv_store },
  );
  kv_list = λ ns w. (ok [], w);
  fetch_redis = λ url token args w. (replied nil, w);
  fetch_pipeline = λ url token batch w. (replied nil, w);
  fetch_site_verify = λ secret token ip w. (ok (record { success = true; error_codes = "" }), w);
  date_parse = λ s. none;
  is_header_value = is_latin;
}

unfoldable pub kv : KvLaws platform
unfolding platform find same_namespace key_eq same_code code_of too_short not_short is_short
kv = record {
  lookup = λ w. find w.kv_store;
  put =
      λ ns k v w. record { clock = w.clock; drawn = w.drawn; kv_store = ((ns, k), v) ∷ w.kv_store };
  kv_get_lem = λ ns k w. refl;
  kv_put_lem = λ ns k v w. refl;
  kv_put_for = λ ns k v ttl w h. rw (not_short ttl h) refl;
  kv_put_short = λ ns k v ttl w h. ("KV PUT failed", rw (is_short ttl h) refl);
  lookup-put_self = λ ns k v w. find_self ns k v w.kv_store;
  lookup-put_ne = λ ns k j v w ne. find_ne ns k v w.kv_store j ne;
  lookup-date_now = λ w. refl;
  lookup-math_random = λ w. refl;
  lookup-random_uuid = λ w. refl;
}

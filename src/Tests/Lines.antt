-- ===== src/Tests/Lines.antt =====
-- A Redis of lines and values in memory.
use crowdtic.Base.{
  ℕ, ◌<◌, ◌≡◌, ◌≢◌, refl, ap, ◌∙◌, String, str_eq, eq_iff, true, false, Option, none, some, List,
  [], ◌∷◌, ◌++◌, All, if◌then◌else◌, arith, ok, take, drop, ltb, length,
}
use crowdtic.Tests.Latin.{is_latin}
use crowdtic.Platform.{
  Platform, Key, Arg, word, key, score, count, stored, Value, text, Reply, int, nil, bulk, array,
  replied,
}
use crowdtic.Room.Lined.{
  Line, line_place, rank_reply, RankLaws, popped_reply, names_reply, value_reply, run, LineLaws,
  PoolLaws,
}
use crowdtic.Tests.World.{key_eq, key_eq_self, key_eq_ne}

pub record Store : Type 0 where
  pub lines : Key → Line
  pub values : Key → Option Value

at : {A : Type 0} → Key → A → (Key → A) → Key → A
at k x f j = if key_eq k j then x else f j

at_self : {A : Type 0} (k : Key) (x : A) (f : Key → A) → at k x f k ≡ x
unfolding at
at_self k x f = rw (key_eq_self k) refl

at_other : {A : Type 0} (k j : Key) (x : A) (f : Key → A) → k ≢ j → at k x f j ≡ f j
unfolding at
at_other k j x f ne = rw (key_eq_ne k j ne) refl

remove : String → Line → Line
remove m [] = []
remove m ((n, t) ∷ l) = let rest = remove m l in if str_eq n m then rest else (n, t) ∷ rest

insert : String → ℕ → Line → Line
insert m s [] = (m, s) ∷ []
insert m s ((n, t) ∷ l) = if ltb s t then (m, s) ∷ (n, t) ∷ l else (n, t) ∷ insert m s l

insert-remove :
    (m : String) (s : ℕ) (l : Line)
    → All (λ e. (e.1 < s) × (e.0 ≢ m)) l
    → insert m s (remove m l) ≡ l ++ (m, s) ∷ []
unfolding insert remove
insert-remove m s [] h = refl
insert-remove m s ((n, t) ∷ l) ((below, ne), h) =
    let other : str_eq n m ≡ false = ground (arith, eq_iff n m, ne) in
    let later : ltb s t ≡ false = ground (arith, below) in
    rw (other, later) (ap (λ r. (n, t) ∷ r) (insert-remove m s l h))

zpopmin : Key → ℕ → Store → Store
zpopmin k n w = record w { lines = at k (drop n (w.lines k)) w.lines }

zadd : Key → ℕ → String → Store → Store
zadd k s m w = record w { lines = at k (insert m s (remove m (w.lines k))) w.lines }

del : Key → Store → Store
del k w = record w { lines = at k [] w.lines }

set_value : Key → Value → ℕ → Store → Store
set_value k v ttl w = record w { values = at k (some v) w.values }

reply_to : List Arg → Store → Reply
reply_to (word c ∷ key k ∷ count n ∷ []) w = array (popped_reply int false (take n (w.lines k)))
reply_to (word c ∷ key k ∷ word a ∷ word b ∷ []) w = array (names_reply (w.lines k))
reply_to (word c ∷ key k ∷ []) w =
    if str_eq c "GET"
    then value_reply (w.values k)
    else if str_eq c "ZCARD"
    then int (length (w.lines k))
    else int 1
reply_to (word c ∷ key k ∷ word m ∷ []) w = rank_reply (line_place m (w.lines k))
reply_to (word c ∷ key k ∷ score s ∷ word m ∷ []) w = int 1
reply_to (word c ∷ key k ∷ stored v ∷ word x ∷ count ttl ∷ []) w = bulk (text "OK")
reply_to _ w = nil

moved : List Arg → Store → Store
moved (word c ∷ key k ∷ count n ∷ []) w = zpopmin k n w
moved (word c ∷ key k ∷ []) w = if str_eq c "DEL" then del k w else w
moved (word c ∷ key k ∷ score s ∷ word m ∷ []) w = zadd k s m w
moved (word c ∷ key k ∷ stored v ∷ word x ∷ count ttl ∷ []) w = set_value k v ttl w
moved _ w = w

run_all : List (List Arg) → Store → Store
run_all [] w = w
run_all (args ∷ batch) w = run_all batch (moved args w)

pub store : Platform Store
store = record {
  date_now = λ w. (1700000000000, w);
  math_random = λ w. (5, w);
  random_uuid = λ w. ("0a1b", w);
  kv_get = λ ns k w. (ok none, w);
  kv_put = λ ns k v ttl w. (ok tt, w);
  kv_list = λ ns w. (ok [], w);
  fetch_redis = λ url token args w. (replied (reply_to args w), moved args w);
  fetch_pipeline = λ url token batch w. (replied nil, run_all batch w);
  fetch_site_verify = λ secret token ip w. (ok (record { success = true; error_codes = "" }), w);
  date_parse = λ s. none;
  is_header_value = is_latin;
}

run_all_lem :
    (url token : String) (batch : List (List Arg)) (w : Store)
    → run_all batch w ≡ run store url token batch w
unfolding run_all run store
run_all_lem url token [] w = refl
run_all_lem url token (args ∷ batch) w = run_all_lem url token batch (moved args w)

pub line-laws : (url token : String) → LineLaws store url token
unfolding store reply_to moved zpopmin set_value
line-laws url token = record {
  members = λ w. w.lines;
  value = λ w. w.values;
  shown = int;
  nested = false;
  zpopmin = zpopmin;
  set = set_value;
  zpopmin_lem = λ k n w. refl;
  get_lem = λ k w. refl;
  set_lem = λ k v ttl w h. (bulk (text "OK"), refl);
  members-zpopmin_self = λ k n w. at_self k _ w.lines;
  members-zpopmin_other = λ k j n w ne. at_other k j _ w.lines ne;
  value-zpopmin = λ k j n w ne. refl;
  value-set_self = λ k v ttl w. at_self k _ w.values;
  value-set_other = λ k j v ttl w ne. at_other k j _ w.values ne;
  members-set = λ k j v ttl w ne. refl;
  members-date_now = λ w. refl;
  members-random_uuid = λ w. refl;
  value-date_now = λ w. refl;
  value-random_uuid = λ w. refl;
}

pub pool-laws : (url token : String) → PoolLaws store url token (line-laws url token)
unfolding store reply_to moved zadd del line-laws
pool-laws url token = record {
  zadd = zadd;
  del = del;
  zcard_lem = λ k w. refl;
  zrange_lem = λ k w. refl;
  zadd_lem = λ k s m w. (1, refl);
  del_lem = λ k w. (1, refl);
  pipeline_lem = λ batch w. (nil, ap (λ v. (replied nil, v)) (run_all_lem url token batch w));
  members-zadd_last = λ k s m w h. at_self k _ w.lines ∙ insert-remove m s (w.lines k) h;
  members-zadd_other = λ k j s m w ne. at_other k j _ w.lines ne;
  members-del_self = λ k w. at_self k _ w.lines;
  members-del_other = λ k j w ne. at_other k j _ w.lines ne;
  members-math_random = λ w. refl;
}

pub rank-laws : (url token : String) → RankLaws store url token (line-laws url token)
unfolding store reply_to moved line-laws
rank-laws url token = record { zrank_lem = λ k m w. refl; zsize_lem = λ k w. refl }

pub value-store :
    (url token : String) (k : Key) (w : Store) → (line-laws url token).value w k ≡ w.values k
unfolding line-laws
value-store url token k w = refl

pub members-store :
    (url token : String) (k : Key) (w : Store) → (line-laws url token).members w k ≡ w.lines k
unfolding line-laws
members-store url token k w = refl

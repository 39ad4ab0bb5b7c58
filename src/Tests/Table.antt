-- ===== src/Tests/Table.antt =====
-- A table in memory in place of Redis: what it holds under each key, as functions.
use crowdtic.Base.{
  ℕ, zero, suc, ◌≡◌, ◌<◌, refl, ap, arith, String, true, ◌&&◌, Option, none, some, if◌then◌else◌,
}
use crowdtic.Base.Int.{ℤ, ◌+ℤ◌, or_zero}
use crowdtic.Stock.Calls.{
  Key, Field, Counter, key_eq, counter_eq, given, is_among, over, Calls, HashLaws, NumberLaws,
}

pub record Table : Type 0 where
  pub field : Key → Field → Option String
  pub number : Key → Counter → Option ℤ
  pub text : Key → Option String
  pub limit : Key → Option ℤ

abbrev pub dropped : Key → Table → Table
dropped k w = record {
  field = λ j g. if key_eq k j then none else w.field j g;
  number = λ j c. if key_eq k j then none else w.number j c;
  text = λ j. if key_eq k j then none else w.text j;
  limit = λ j. if key_eq k j then none else w.limit j;
}

-- A lifetime of zero ends the key.
abbrev pub live : Key → ℕ → Table → Table
live k zero w = dropped k w
live k (suc n) w = w

abbrev pub table : Calls Table
table = record {
  hget = λ k f w. w.field k f;
  hget_number = λ k c w. w.number k c;
  get = λ k w. w.text k;
  get_number = λ k w. w.limit k;
  exists = λ k w. true;
  time = λ w. (1700000000, 5000);
  hmset = λ k fs w. record w {
    field = λ j g. if key_eq k j then over (given g fs) (w.field j g) else w.field j g;
  };
  hdel = λ k fs w. record w {
    field = λ j g. if key_eq k j && is_among g fs then none else w.field j g;
  };
  hincrby = λ k d n w. record w {
    number = λ j c.
        if key_eq k j && counter_eq d c then some (or_zero (w.number j c) +ℤ n) else w.number j c;
  };
  incrby = λ k n w. record w {
    limit = λ j. if key_eq k j then some (or_zero (w.limit j) +ℤ n) else w.limit j;
  };
  set_ex = λ k v n w. record (dropped k w) { text = λ j. if key_eq k j then some v else w.text j };
  expire = live;
  pexpire = live;
  persist = λ k w. w;
  del = dropped;
  tostring = λ n. "1700000000005";
  concat = λ ss. "";
}

live-eq : (k : Key) (n : ℕ) (w : Table) → 0 < n → live k n w ≡ w
live-eq k zero w h = absurd (omega arith)
live-eq k (suc n) w h = refl

pub table_hashes : HashLaws table
table_hashes = record {
  hget-hmset = λ k j fs g w. refl;
  hget-hdel = λ k j fs g w. refl;
  hget-hincrby = λ k j c n g w. refl;
  hget-incrby = λ k j n g w. refl;
  hget-set_ex = λ k j v n g w h. rw h refl;
  hget-expire = λ k j n g w h. ap (λ (t : Table). t.field j g) (live-eq k n w h);
  hget-pexpire = λ k j n g w h. ap (λ (t : Table). t.field j g) (live-eq k n w h);
  hget-persist = λ k j g w. refl;
  hget-del = λ k j g w. refl;
}

pub table_numbers : NumberLaws table
table_numbers = record {
  number-hmset = λ k j fs c w. refl;
  number-hdel = λ k j fs c w. refl;
  number-hincrby = λ k j d n c w. refl;
  number-incrby = λ k j n c w. refl;
  number-expire = λ k j n c w h. ap (λ (t : Table). t.number j c) (live-eq k n w h);
  number-pexpire = λ k j n c w h. ap (λ (t : Table). t.number j c) (live-eq k n w h);
  number-persist = λ k j c w. refl;
  number-del = λ k j c w. refl;
  limit-hmset = λ k j fs w h. refl;
  limit-hdel = λ k j fs w. refl;
  limit-hincrby = λ k j c n w h. refl;
  limit-incrby = λ k j n w. refl;
  limit-expire = λ k j n w h. ap (λ (t : Table). t.limit j) (live-eq k n w h);
  limit-pexpire = λ k j n w h. ap (λ (t : Table). t.limit j) (live-eq k n w h);
  limit-persist = λ k j w. refl;
  limit-del = λ k j w. refl;
}

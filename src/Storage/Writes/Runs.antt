-- ===== src/Storage/Writes/Runs.antt =====
-- What runs of the appends of libnkvdb/storage.cpp begin with.
use nkvdb.Prelude.{ℕ, ◌≡◌, ap, Bool, List, [], ◌∷◌, arith, replicate, sym}
use mathlib.Core.Path.{subst}
use nkvdb.Prelude.Result.{Result, ok, err}
use nkvdb.Meas.{Meas, AppendResult, no_append}
use nkvdb.Cache.{make_cache}
use nkvdb.Cache.Current.{no_values}
use nkvdb.CachePool.{make_pool}
use nkvdb.Storage.Writes.{Store, new_store}
use nkvdb.Storage.Writes.Keeping.{IsStore, IsPooled}
use nkvdb.Storage.Writes.Start.{new_store-IsStore}

abbrev pub sample : ℕ → ℕ → Meas
sample id time = record {
  id = id;
  time = time;
  source = 1;
  flag = 2;
  value = 1 ∷ 2 ∷ 3 ∷ 4 ∷ 5 ∷ 6 ∷ 7 ∷ 8 ∷ replicate 8 0;
  size = 8;
}

abbrev pub three : List Meas
three = sample 1 5 ∷ sample 2 6 ∷ sample 1 7 ∷ []

-- A new storage with two caches of two measurements.
abbrev pub store_of : {P : Type 0} → Store P → Result (Store P) → Store P
store_of default (ok st) = st
store_of default (err e) = default

abbrev pub empty_store : {P : Type 0} → P → Store P
empty_store pages = record {
  pool = make_pool 2 2 (λ a. make_cache 2) 0;
  current = 0;
  queue = [];
  cur_values = no_values;
  past_time = 0;
  pages = pages;
}

abbrev pub first : {P : Type 0} → P → Store P
first pages = store_of (empty_store pages) (new_store 3 2 2 pages)

pub first-IsStore :
    {P : Type 0} (stored : P → List Meas → Type 0) (fits : Meas → Bool) (pages : P)
    (kept : List Meas)
    → stored pages kept
    → IsStore stored fits 2 kept (first pages) × IsPooled (first pages)
first-IsStore stored fits pages kept h =
    let (st, e, store, pooled, _) =
      new_store-IsStore stored fits 2 2 2 2 pages kept (omega arith) (omega arith) (omega arith)
        (omega arith) h in
    let same : st ≡ first pages = sym (ap (store_of (empty_store pages)) e) in
    (subst (IsStore stored fits 2 kept) same store, subst IsPooled same pooled)

abbrev pub after : {P : Type 0} → Result (Store P × AppendResult) → Result (Store P)
after (ok (st, r)) = ok st
after (err e) = err e

abbrev pub result_of : {P : Type 0} → Result (Store P × AppendResult) → AppendResult
result_of (ok (st, r)) = r
result_of (err e) = no_append

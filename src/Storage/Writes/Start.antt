-- ===== src/Storage/Writes/Start.antt =====
-- A new storage of libnkvdb/storage.cpp.
use nkvdb.Prelude.{
  ◌/◌, ℕ, zero, suc, ◌+◌, ◌≤◌, ◌<◌, ◌≡◌, refl, ap, inl, inr, Bool, false, List, [], ◌∷◌, ◌++◌, not,
  none, arith, word,
}
use nkvdb.Prelude.Result.{Result, ok, err, undefined}
use nkvdb.Meas.{Meas}
use nkvdb.Cache.{make_cache, Cache, set_storage}
use nkvdb.Cache.Content.{make_cache-IsValid, contents, IsValid}
use nkvdb.CachePool.{Pool, put_cache}
use nkvdb.Storage.Writes.{Store}
use nkvdb.Storage.Writes.Keeping.{
  total, IsIn, IsPooled, tally, IsFine, IsWriter, IsKeeping, IsStore, NoneLive, put_cache-all,
}
use nkvdb.CachePool.{add_caches, init_pool, make_pool}
use nkvdb.Storage.Writes.{new_store}
use nkvdb.Cache.Current.{no_values}
use nkvdb.Storage.Writes.Wait.{free_cache-unmarked, picked, picked-IsStore}
use nkvdb.Storage.Writes.Turns.{free_cache-finds, get_cache_total}

-- What holds for new caches holds for all that a new pool has.
add_caches-all :
    (Q : Cache → Type 0) (n : ℕ) (p : Pool)
    → Q (make_cache p.cache_size)
    → ((a : ℕ) → Q (p.heap a))
    → (a : ℕ) → Q ((add_caches n p).heap a)
unfolding add_caches
add_caches-all Q zero p new old = old
add_caches-all Q (suc n) p new old =
    add_caches-all Q n
      (record p {
        caches = p.caches ++ p.next ∷ [];
        heap = put_cache p.next (make_cache p.cache_size) p.heap;
        next = p.next + 1;
      })
      new (put_cache-all p.heap p.next (make_cache p.cache_size) Q new old)

IsIn-append : (a : ℕ) (xs ys : List ℕ) → IsIn a ys → IsIn a (xs ++ ys)
IsIn-append a [] ys h = h
IsIn-append a (x ∷ xs) ys h = inr (IsIn-append a xs ys h)

IsIn-append_left : (a : ℕ) (xs ys : List ℕ) → IsIn a xs → IsIn a (xs ++ ys)
IsIn-append_left a [] ys h = absurd h
IsIn-append_left a (x ∷ xs) ys (inl h) = inl h
IsIn-append_left a (x ∷ xs) ys (inr h) = inr (IsIn-append_left a xs ys h)

add_caches-IsIn : (n : ℕ) (p : Pool) (a : ℕ) → IsIn a p.caches → IsIn a (add_caches n p).caches
unfolding add_caches
add_caches-IsIn zero p a h = h
add_caches-IsIn (suc n) p a h =
    add_caches-IsIn n
      (record p {
        caches = p.caches ++ p.next ∷ [];
        heap = put_cache p.next (make_cache p.cache_size) p.heap;
        next = p.next + 1;
      })
      a (IsIn-append_left a p.caches (p.next ∷ []) h)

add_caches-first : (n : ℕ) (p : Pool) → IsIn p.next (add_caches (suc n) p).caches
unfolding add_caches
add_caches-first n p =
    add_caches-IsIn n
      (record p {
        caches = p.caches ++ p.next ∷ [];
        heap = put_cache p.next (make_cache p.cache_size) p.heap;
        next = p.next + 1;
      })
      p.next (IsIn-append p.next p.caches (p.next ∷ []) (inl refl))

-- What a cache of a new storage is like.
record IsNew (size : ℕ) (c : Cache) : Type 0 where
  valid : IsValid c
  size_is : c.max_size ≡ size
  nothing : contents c ≡ []
  unmarked : c.sync ≡ false

make_cache-IsNew : (size : ℕ) → size < word → IsNew size (make_cache size)
unfolding make_cache
make_cache-IsNew size h =
    let (valid, nothing) = make_cache-IsValid size h in
    record { valid = valid; size_is = refl; nothing = nothing; unmarked = refl }

set_storage-IsNew : (size : ℕ) (c : Cache) → IsNew size c → IsNew size (set_storage c)
unfolding set_storage
set_storage-IsNew size c h = record {
  valid = record {
    array = h.valid.array;
    counted = h.valid.counted;
    fits = h.valid.fits;
    small = h.valid.small;
  };
  size_is = h.size_is;
  nothing = h.nothing;
  unmarked = h.unmarked;
}

add_caches-dynamic_size : (n : ℕ) (p : Pool) → (add_caches n p).dynamic_size ≡ p.dynamic_size
unfolding add_caches
add_caches-dynamic_size zero p = refl
add_caches-dynamic_size (suc n) p = add_caches-dynamic_size n (record p {
  caches = p.caches ++ p.next ∷ [];
  heap = put_cache p.next (make_cache p.cache_size) p.heap;
  next = p.next + 1;
})

IsNew-IsFine :
    (fits : Meas → Bool) (limit size : ℕ) (c : Cache)
    → 0 < size
    → size ≤ limit
    → IsNew size c
    → IsFine fits limit c
IsNew-IsFine fits limit size c room most h = record {
  valid = h.valid;
  some_room = omega (arith, room, h.size_is);
  at_most = omega (arith, most, h.size_is);
  fitting = ap (tally (λ m. not (fits m))) h.nothing;
}

-- A writer that always fails, as one that is never called.
abbrev never : {P : Type 0} → Cache → P → Result (Cache × P)
never c p = err undefined

never-IsWriter :
    {P : Type 0} (stored : P → List Meas → Type 0) (fits : Meas → Bool) (limit : ℕ)
    → IsWriter never stored fits limit
never-IsWriter stored fits limit c c' p p' kept fine h e = cc e

-- A new storage with at least one cache, whose caches have room for at least one measurement and
-- at most `limit`, below 2 ^ 64, on pages that keep `kept`: it is made, it is as IsStore describes
-- it, its pool has its current cache, and only its pages have measurements.
pub new_store-IsStore :
    {P : Type 0} (stored : P → List Meas → Type 0) (fits : Meas → Bool)
    (limit fuel pool_size cache_size : ℕ) (pages : P) (kept : List Meas)
    → 0 < pool_size
    → 0 < cache_size
    → cache_size ≤ limit
    → cache_size < word
    → stored pages kept
    → (st : Store P) × (new_store (suc fuel) pool_size cache_size pages ≡ ok st)
      × IsStore stored fits limit kept st
      × IsPooled st
      × ((f : Meas → Bool) → total f kept st ≡ tally f kept)
unfolding new_store make_pool init_pool
new_store-IsStore {P} stored fits limit fuel zero cache_size pages kept pos room most small h =
    absurd (omega arith)
new_store-IsStore {P} stored fits limit fuel (suc n) cache_size pages kept pos room most small h =
    let start = make_cache cache_size in
    let made = make_pool (suc n) cache_size (λ a. start) 0 in
    let begin : Pool = record {
      caches = [];
      pool_size = suc n;
      cache_size = cache_size;
      default_pool_size = suc n;
      recalc_period = suc n / 3;
      dynamic_size = false;
      heap = λ a. start;
      next = 0;
    } in
    let new = make_cache-IsNew cache_size small in
    let all : (a : ℕ) → IsNew cache_size (made.heap a) =
      add_caches-all (IsNew cache_size) (suc n) begin new (λ a. new) in
    let fixed : made.dynamic_size ≡ false = add_caches-dynamic_size (suc n) begin in
    let first : IsIn 0 made.caches = add_caches-first n begin in
    let (a, found) = free_cache-finds made.caches made.heap none 0 first ((all 0).unmarked) in
    let member = free_cache-unmarked made.caches made.heap a found in
    let bare : Store P = record {
      pool = made;
      current = a;
      queue = [];
      cur_values = no_values;
      past_time = 0;
      pages = pages;
    } in
    let keeping : IsKeeping stored fits limit NoneLive kept bare = record {
      fixed = fixed;
      fine = λ x. IsNew-IsFine fits limit cache_size (made.heap x) room most (all x);
      marked = tt;
      empty = λ x u. inr (all x).nothing;
      distinct = tt;
      stored_pages = h;
    } in
    let (store, emptied, balance) =
      picked-IsStore (never-IsWriter stored fits limit) fuel a kept bare keeping member.0 in
    (
      picked (never-IsWriter stored fits limit) fuel a bare,
      ground (arith, get_cache_total fuel made fixed, found),
      store,
      (member.1, tt),
      λ f. omega (arith, balance f, ap (tally f) emptied),
    )

-- ===== src/CachePool.antt =====
-- class CachePool of include/cache.h and libnkvdb/cache.cpp. A `shared_ptr` to a cache is an
-- address of the heap, which the pool, the storage and the writer share.
pub mod Free
pub mod Enough
mod Tests
use nkvdb.Prelude.{
  ℕ, zero, suc, ◌+◌, ◌-◌, ◌*◌, ◌/◌, Bool, true, false, List, [], ◌∷◌, ◌++◌, ◌&&◌, not, Option, none,
  some, ltb, leb, ◌==◌, if◌then◌else◌, max,
}
use nkvdb.Prelude.Result.{Result, ok, err, no_fuel}
use nkvdb.Cache.{Cache, make_cache, set_size}

-- `recalc_period` stays at 0 where the source counts below it: only its sign is tested. `next` is
-- the first address that no cache has had.
pub record Pool : Type 0 where
  pub caches : List ℕ
  pub pool_size : ℕ
  pub cache_size : ℕ
  pub default_pool_size : ℕ
  pub recalc_period : ℕ
  pub dynamic_size : Bool
  pub heap : ℕ → Cache
  pub next : ℕ

-- Writing the cache at an address.
abbrev pub put_cache : ℕ → Cache → (ℕ → Cache) → ℕ → Cache
put_cache a c heap x = if x == a then c else heap x

-- `n` new caches.
unfoldable pub add_caches : ℕ → Pool → Pool
add_caches zero p = p
add_caches (suc n) p = add_caches n (record p {
  caches = p.caches ++ p.next ∷ [];
  heap = put_cache p.next (make_cache p.cache_size) p.heap;
  next = p.next + 1;
})

-- `init_pool`: the pool forgets its caches, which live on where others hold them.
unfoldable pub init_pool : Pool → Pool
unfolding add_caches
init_pool p = add_caches p.pool_size (record p { caches = [] })

-- The constructor.
unfoldable pub make_pool : ℕ → ℕ → (ℕ → Cache) → ℕ → Pool
unfolding init_pool
make_pool pool_size cache_size heap next = init_pool (record {
  caches = [];
  pool_size = pool_size;
  cache_size = cache_size;
  default_pool_size = pool_size;
  recalc_period = pool_size / 3;
  dynamic_size = false;
  heap = heap;
  next = next;
})

unfoldable pub enable_dynamic_size : Bool → Pool → Pool
enable_dynamic_size flg p = record p { dynamic_size = flg }

unfoldable pub set_pool_size : ℕ → Pool → Pool
unfolding init_pool
set_pool_size sz p = init_pool (record p { pool_size = sz })

-- The caches that are not being written get the new size.
unfoldable pub resize_all : ℕ → List ℕ → (ℕ → Cache) → ℕ → Cache
resize_all sz [] heap = heap
resize_all sz (a ∷ rest) heap =
    resize_all sz rest (if (heap a).sync then heap else put_cache a (set_size sz (heap a)) heap)

unfoldable pub set_cache_size : ℕ → Pool → Pool
unfolding resize_all
set_cache_size sz p = record p { cache_size = sz; heap = resize_all sz p.caches p.heap }

-- The loop of `getCache`: the last free cache, and the count of them.
unfoldable pub free_cache : List ℕ → (ℕ → Cache) → Option ℕ → Option ℕ
free_cache [] heap result = result
free_cache (a ∷ rest) heap result = free_cache rest heap (if (heap a).sync then result else some a)

unfoldable pub count_free : List ℕ → (ℕ → Cache) → ℕ
count_free [] heap = 0
count_free (a ∷ rest) heap =
    if (heap a).sync then count_free rest heap else count_free rest heap + 1

-- The pool is made smaller when half of it is free.
unfoldable pub shrink : ℕ → Pool → Pool
unfolding set_pool_size
shrink free p =
    let p' = set_pool_size (max (p.pool_size / 2) p.default_pool_size) p in
    if leb (p.pool_size / 2) free && ltb p.default_pool_size p.pool_size
    then record p' { recalc_period = p'.pool_size / 2 }
    else p

-- It is made larger when at most 0.85 of it are free; the product is taken without rounding.
unfoldable pub grow : ℕ → Pool → Pool
unfolding set_pool_size
grow free p =
    let p' = set_pool_size (p.pool_size * 2) p in
    if leb (free * 100) (p.pool_size * 85)
    then record p' { recalc_period = p'.pool_size / 2 }
    else p

-- A pool with no free cache, when it may grow. The sizes stay within the range of int.
unfoldable pub enlarge : Pool → Pool
unfolding set_pool_size set_cache_size
enlarge p =
    let p' = set_cache_size (p.cache_size * 3 / 2) (set_pool_size (p.pool_size * 3 / 2) p) in
    record p' { recalc_period = p'.pool_size }

-- Both, when the period is over.
unfoldable pub resized : ℕ → Pool → Pool
unfolding shrink grow
resized free p = if p.dynamic_size && p.recalc_period == 0 then grow free (shrink free p) else p

-- `getCache`, with none for a null pointer; `fuel` bounds the depth of its own calls.
unfoldable pub get_cache : ℕ → Pool → Result (Option ℕ × Pool)
unfolding free_cache count_free resized enlarge
get_cache zero p = err no_fuel
get_cache (suc fuel) p =
    let p₁ = record p { recalc_period = p.recalc_period - 1 } in
    let free = count_free p.caches p.heap in
    let again = get_cache fuel (enlarge p₁) in
    elim (free_cache p.caches p.heap none) [
      | none ↦ if p.dynamic_size then again else ok (none, p₁)
      | some a ↦ ok (some a, resized free p₁)
    ]

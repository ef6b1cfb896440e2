-- ===== src/CachePool/Tests.antt =====
-- Runs of `getCache` of libnkvdb/cache.cpp, and instances of the theorems about it.
use nkvdb.Prelude.{ℕ, ◌≡◌, refl, true, false, Option, some, arith}
use nkvdb.Prelude.Result.{Result, ok, err}
use nkvdb.Cache.{make_cache, sync_begin}
use nkvdb.CachePool.{Pool, make_pool, enable_dynamic_size, get_cache, put_cache}
use nkvdb.CachePool.Free.{get_cache-free}
use nkvdb.CachePool.Enough.{get_cache-returns}

-- A pool of two caches of three measurements, the second of which is being written.
abbrev pool : Pool
unfolding make_pool sync_begin make_cache
pool =
    let p = make_pool 2 3 (λ a. make_cache 0) 0 in
    record p { heap = put_cache 1 (sync_begin (p.heap 1)) p.heap }

abbrev pool_of : Result (Option ℕ × Pool) → Pool
pool_of (ok (a, q)) = q
pool_of (err e) = pool

-- Both caches are being written, and the pool may grow.
abbrev busy_pool : Pool
unfolding enable_dynamic_size sync_begin
busy_pool =
    enable_dynamic_size true
      (record pool { heap = put_cache 0 (sync_begin (pool.heap 0)) pool.heap })

get_cache_first : (q : Pool) × (get_cache 1 pool ≡ ok (some 0, q))
unfolding get_cache make_pool make_cache sync_begin
get_cache_first = (pool_of (get_cache 1 pool), refl)

get_cache-free_example : ((pool_of (get_cache 1 pool)).heap 0).sync ≡ false
unfolding get_cache make_pool make_cache sync_begin
get_cache-free_example =
    get_cache-free 1 pool (pool_of (get_cache 1 pool)) 0 refl (omega arith, (omega arith, tt))

get_cache-returns_example : (a : ℕ) × (q : Pool) × (get_cache 2 busy_pool ≡ ok (some a, q))
unfolding enable_dynamic_size make_pool busy_pool pool
get_cache-returns_example = get_cache-returns 0 busy_pool refl (omega arith)

-- ===== src/CachePool/Enough.antt =====
-- That `getCache` of libnkvdb/cache.cpp comes to an end when the pool may grow.
use nkvdb.Prelude.{
  ℕ, zero, suc, ◌+◌, ◌-◌, ◌*◌, ◌/◌, ◌<◌, ◌≡◌, refl, true, false, List, [], ◌∷◌, ◌++◌, Option, none,
  some, arith, if◌then◌else◌, ◌∙◌, ap, ℕ_discrete, Option-cases, inl, inr,
}
use nkvdb.Prelude.Result.{ok}
use nkvdb.Cache.{Cache, make_cache, set_size}
use nkvdb.CachePool.{
  Pool, put_cache, add_caches, init_pool, set_pool_size, set_cache_size, resize_all, free_cache,
  count_free, resized, enlarge, get_cache,
}

free_cache_last :
    (xs : List ℕ) (x : ℕ) (heap : ℕ → Cache) (old : Option ℕ)
    → (heap x).sync ≡ false
    → free_cache (xs ++ x ∷ []) heap old ≡ some x
unfolding free_cache
free_cache_last [] x heap old h = ground (arith, h)
free_cache_last (y ∷ ys) x heap old h =
    free_cache_last ys x heap (if (heap y).sync then old else some y) h

-- The last of new caches, which is free.
HasLast : Pool → Type 0
HasLast p = (xs : List ℕ) × (x : ℕ) × (p.caches ≡ xs ++ x ∷ []) × ((p.heap x).sync ≡ false)

add_caches-HasLast : (n : ℕ) (p : Pool) → HasLast (add_caches (suc n) p)
unfolding add_caches HasLast make_cache
add_caches-HasLast zero p = (p.caches, p.next, refl, ground arith)
add_caches-HasLast (suc n) p = add_caches-HasLast n (record p {
  caches = p.caches ++ p.next ∷ [];
  heap = put_cache p.next (make_cache p.cache_size) p.heap;
  next = p.next + 1;
})

sync-set_size : (sz : ℕ) (c : Cache) → (set_size sz c).sync ≡ c.sync
unfolding set_size
sync-set_size sz c = ground arith

same_sync :
    (sz x a : ℕ) (heap : ℕ → Cache)
    → ((if (heap x).sync then heap else put_cache x (set_size sz (heap x)) heap) a).sync
      ≡ (heap a).sync
same_sync sz x a heap = elim (ℕ_discrete a x) [
  | yes e ↦ rw e (ground (arith, sync-set_size sz (heap x)))
  | no e ↦ ground (arith, e)
]

sync-resize_all :
    (sz : ℕ) (xs : List ℕ) (heap : ℕ → Cache) (a : ℕ)
    → (resize_all sz xs heap a).sync ≡ (heap a).sync
unfolding resize_all
sync-resize_all sz [] heap a = refl
sync-resize_all sz (x ∷ xs) heap a =
    sync-resize_all sz xs (if (heap x).sync then heap else put_cache x (set_size sz (heap x)) heap)
      a
    ∙ same_sync sz x a heap

set_pool_size-HasLast : (sz : ℕ) (p : Pool) → 0 < sz → HasLast (set_pool_size sz p)
unfolding set_pool_size init_pool
set_pool_size-HasLast zero p h = absurd (omega arith)
set_pool_size-HasLast (suc n) p h =
    add_caches-HasLast n (record p { pool_size = suc n; caches = [] })

free_cache-enlarge :
    (p : Pool)
    → 0 < p.pool_size
    → (x : ℕ) × (free_cache (enlarge p).caches (enlarge p).heap none ≡ some x)
unfolding enlarge set_cache_size HasLast
free_cache-enlarge p h =
    let (xs, x, e, f) = set_pool_size-HasLast (p.pool_size * 3 / 2) p (omega arith) in
    let p' = set_pool_size (p.pool_size * 3 / 2) p in
    let heap = resize_all (p.cache_size * 3 / 2) p'.caches p'.heap in
    (
      x,
      ap (λ (ys : List ℕ). free_cache ys heap none) e
          ∙ free_cache_last xs x heap none
              (sync-resize_all (p.cache_size * 3 / 2) p'.caches p'.heap x ∙ f),
    )

-- A pool that may grow and that has a size hands out a cache, after at most one call of its own.
pub get_cache-returns :
    (fuel : ℕ) (p : Pool)
    → p.dynamic_size ≡ true
    → 0 < p.pool_size
    → (a : ℕ) × (q : Pool) × (get_cache (suc (suc fuel)) p ≡ ok (some a, q))
unfolding get_cache
get_cache-returns fuel p d h =
    let p₁ = record p { recalc_period = p.recalc_period - 1 } in
    let p₂ = enlarge p₁ in
    let p₃ = record p₂ { recalc_period = p₂.recalc_period - 1 } in
    let (x, e) = free_cache-enlarge p₁ h in
    elim (Option-cases (free_cache p.caches p.heap none)) [
      | inl n ↦ (x, resized (count_free p₂.caches p₂.heap) p₃, ground (arith, n, d, e))
      | inr (b, n) ↦ (b, resized (count_free p.caches p.heap) p₁, ground (arith, n))
    ]

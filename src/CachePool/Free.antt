-- ===== src/CachePool/Free.antt =====
-- The caches that `getCache` of libnkvdb/cache.cpp hands out.
use nkvdb.Prelude.{
  ℕ, zero, suc, ◌+◌, ◌<◌, ◌≤◌, ◌≡◌, refl, false, List, [], ◌∷◌, ◌++◌, Option, none, some, arith,
  ◌⊎◌, All, All-append, ◌-◌, Bool-cases, Option-cases, ap, inl, inr, sym, ◌∙◌, max, ◌/◌, ◌*◌,
}
use nkvdb.Prelude.Result.{ok, ok-injective}
use nkvdb.Cache.{Cache, make_cache}
use nkvdb.CachePool.{
  Pool, put_cache, add_caches, init_pool, set_pool_size, set_cache_size, free_cache, count_free,
  shrink, grow, enlarge, get_cache, resized,
}

-- The caches of a pool have addresses below the next one.
abbrev pub IsPool : Pool → Type 0
IsPool p = All (λ a. a < p.next) p.caches

-- Allocation leaves what stands below the next address.
add_caches-heap : (n : ℕ) (p : Pool) (a : ℕ) → a < p.next → (add_caches n p).heap a ≡ p.heap a
unfolding add_caches
add_caches-heap zero p a h = refl
add_caches-heap (suc n) p a h =
    let p' = record p {
      caches = p.caches ++ p.next ∷ [];
      heap = put_cache p.next (make_cache p.cache_size) p.heap;
      next = p.next + 1;
    } in
    ground (arith, add_caches-heap n p' a (omega arith))

add_caches-next : (n : ℕ) (p : Pool) → p.next ≤ (add_caches n p).next
unfolding add_caches
add_caches-next zero p = omega arith
add_caches-next (suc n) p =
    let p' = record p {
      caches = p.caches ++ p.next ∷ [];
      heap = put_cache p.next (make_cache p.cache_size) p.heap;
      next = p.next + 1;
    } in
    omega (arith, add_caches-next n p')

-- The free cache found is one of the list and free.
free_cache_lem :
    (xs : List ℕ) (heap : ℕ → Cache) (n : ℕ) (old : Option ℕ) (a : ℕ)
    → free_cache xs heap old ≡ some a
    → All (λ x. x < n) xs
    → (old ≡ some a) ⊎ (((heap a).sync ≡ false) × (a < n))
unfolding free_cache
free_cache_lem [] heap n old a e h = inl e
free_cache_lem (x ∷ xs) heap n old a e h = elim (Bool-cases (heap x).sync) [
  | inl b ↦ free_cache_lem xs heap n old a (ground (arith, b, e)) h.1
  | inr b ↦ elim (free_cache_lem xs heap n (some x) a (ground (arith, b, e)) h.1) [
    | inl f ↦ let same : x ≡ a = cc f in inr (rw (sym same) (b, h.0))
    | inr f ↦ inr f
  ]
]

-- The pool after a change of its size has the caches that it had.
set_pool_size-heap :
    (sz : ℕ) (p : Pool) (a : ℕ) → a < p.next → (set_pool_size sz p).heap a ≡ p.heap a
unfolding set_pool_size init_pool
set_pool_size-heap sz p a h = add_caches-heap sz (record p { pool_size = sz; caches = [] }) a h

set_pool_size-next : (sz : ℕ) (p : Pool) → p.next ≤ (set_pool_size sz p).next
unfolding set_pool_size init_pool
set_pool_size-next sz p = add_caches-next sz (record p { pool_size = sz; caches = [] })

shrink-heap : (free : ℕ) (p : Pool) (a : ℕ) → a < p.next → (shrink free p).heap a ≡ p.heap a
unfolding shrink
shrink-heap free p a h =
    ground (arith, set_pool_size-heap (max (p.pool_size / 2) p.default_pool_size) p a h)

shrink-next : (free : ℕ) (p : Pool) → p.next ≤ (shrink free p).next
unfolding shrink
shrink-next free p =
    ground (arith, set_pool_size-next (max (p.pool_size / 2) p.default_pool_size) p)

grow-heap : (free : ℕ) (p : Pool) (a : ℕ) → a < p.next → (grow free p).heap a ≡ p.heap a
unfolding grow
grow-heap free p a h = ground (arith, set_pool_size-heap (p.pool_size * 2) p a h)

All-weaken : (xs : List ℕ) (m n : ℕ) → m ≤ n → All (λ x. x < m) xs → All (λ x. x < n) xs
All-weaken [] m n h a = tt
All-weaken (x ∷ xs) m n h a = (omega (arith, a.0), All-weaken xs m n h a.1)

add_caches-IsPool : (n : ℕ) (p : Pool) → IsPool p → IsPool (add_caches n p)
unfolding add_caches
add_caches-IsPool zero p h = h
add_caches-IsPool (suc n) p h =
    add_caches-IsPool n
      (record p {
        caches = p.caches ++ p.next ∷ [];
        heap = put_cache p.next (make_cache p.cache_size) p.heap;
        next = p.next + 1;
      })
      (All-append (λ x. x < p.next + 1) p.caches (p.next ∷ [])
        (All-weaken p.caches p.next (p.next + 1) (omega arith) h) (omega arith, tt))

enlarge-IsPool : (p : Pool) → IsPool (enlarge p)
unfolding enlarge set_cache_size set_pool_size init_pool
enlarge-IsPool p =
    add_caches-IsPool (p.pool_size * 3 / 2)
      (record p { pool_size = p.pool_size * 3 / 2; caches = [] }) tt

resized-heap : (free : ℕ) (p : Pool) (a : ℕ) → a < p.next → (resized free p).heap a ≡ p.heap a
unfolding resized
resized-heap free p a h = ground (
  arith,
  grow-heap free (shrink free p) a (omega (arith, shrink-next free p)),
  shrink-heap free p a h,
)

handed_out :
    (p q : Pool) (a free : ℕ)
    → IsPool p
    → free_cache p.caches p.heap none ≡ some a
    → resized free (record p { recalc_period = p.recalc_period - 1 }) ≡ q
    → (q.heap a).sync ≡ false
handed_out p q a free h f e =
    let p₁ = record p { recalc_period = p.recalc_period - 1 } in
    let before : ((p.heap a).sync ≡ false) × (a < p.next) =
      elim (free_cache_lem p.caches p.heap p.next none a f h) [
        | inl x ↦ absurd (cc x)
        | inr x ↦ x
      ] in
    ap (λ (x : Pool). (x.heap a).sync) (sym e)
    ∙ ap (λ (c : Cache). c.sync) (resized-heap free p₁ a before.1)
    ∙ before.0

-- When `getCache` hands out a cache, this is not being written to a page, however the pool has
-- changed its size on the way.
pub get_cache-free :
    (fuel : ℕ) (p q : Pool) (a : ℕ)
    → get_cache fuel p ≡ ok (some a, q)
    → IsPool p
    → (q.heap a).sync ≡ false
unfolding get_cache
get_cache-free zero p q a e h = cc e
get_cache-free (suc fuel) p q a e h =
    let p₁ = record p { recalc_period = p.recalc_period - 1 } in
    let free = count_free p.caches p.heap in
    elim (Option-cases (free_cache p.caches p.heap none)) [
      | inl n ↦ elim (Bool-cases p.dynamic_size) [
        | inl d ↦ get_cache-free fuel (enlarge p₁) q a (ground (arith, e, n, d)) (enlarge-IsPool p₁)
        | inr d ↦ absurd (ground (arith, e, n, d))
      ]
      | inr (b, n) ↦
          let step : ok (some b, resized free p₁) ≡ ok (some a, q) = ground (arith, e, n) in
          let same = ok-injective (some b, resized free p₁) (some a, q) step in
          let one : b ≡ a = cc same in
          let two : resized free p₁ ≡ q = ap (λ (x : Option ℕ × Pool). x.1) same in
          handed_out p q a free h (n ∙ ap some one) two
    ]

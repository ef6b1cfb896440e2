-- ===== src/Storage/Writes/Turns.antt =====
-- `writeCache` of libnkvdb/storage.cpp ends when the thread is given a turn.
use nkvdb.Prelude.{
  length, length-append, ◌+◌, ◌≤◌, ℕ, zero, suc, ◌-◌, ◌<◌, ◌≡◌, refl, sym, ap, ◌∙◌, ◌⊎◌, inl, inr,
  Bool, false, List, [], ◌∷◌, ◌++◌, Option, none, some, arith, ◌==◌, if◌then◌else◌, All, Bool-cases,
  Option-cases, List-cases,
}
use mathlib.Core.Path.{subst}
use nkvdb.Prelude.Result.{Result, ok}
use nkvdb.Meas.{Meas}
use nkvdb.Cache.{Cache}
use nkvdb.CachePool.{Pool, put_cache, get_cache, free_cache, resized}
use nkvdb.Storage.Writes.{Store, cache_at, put_at, write_first, write_some, wait_cache, write_cache}
use nkvdb.Storage.Writes.Keeping.{
  IsIn, IsPooled, IsWriter, IsKeeping, IsStore, NoneLive, put_cache-same,
}
use nkvdb.Storage.Writes.Ends.{Failed, Ends, Result-cases, Ends-eq, map-Ends, then-Ends}
use nkvdb.Storage.Writes.Thread.{write_some_shorter, write_first-Moved, write_some-Moved}
use nkvdb.Storage.Writes.Wait.{picked, ticked, ticked-IsKeeping}
use nkvdb.Storage.Writes.Current.{shelved, shelved-IsKeeping}

-- The thread has a turn in one of the waits.
abbrev pub HasTurn : List ℕ → Type 0
HasTurn [] = ⊥
HasTurn (n ∷ turns) = (0 < n) ⊎ HasTurn turns

free_cache-keeps :
    (xs : List ℕ) (heap : ℕ → Cache) (a : ℕ) → (b : ℕ) × (free_cache xs heap (some a) ≡ some b)
unfolding free_cache
free_cache-keeps [] heap a = (a, refl)
free_cache-keeps (x ∷ xs) heap a = elim (Bool-cases (heap x).sync) [
  | inl t ↦ let (b, e) = free_cache-keeps xs heap a in (b, ground (arith, t, e))
  | inr t ↦ let (b, e) = free_cache-keeps xs heap x in (b, ground (arith, t, e))
]

-- A cache that is not marked makes `getCache` find one.
pub free_cache-finds :
    (xs : List ℕ) (heap : ℕ → Cache) (old : Option ℕ) (a : ℕ)
    → IsIn a xs
    → (heap a).sync ≡ false
    → (b : ℕ) × (free_cache xs heap old ≡ some b)
unfolding free_cache
free_cache-finds [] heap old a m s = absurd m
free_cache-finds (x ∷ xs) heap old a (inl e) s =
    let (b, f) = free_cache-keeps xs heap x in
    let t : (heap x).sync ≡ false = ap (λ y. (heap y).sync) (sym e) ∙ s in (b, ground (arith, t, f))
free_cache-finds (x ∷ xs) heap old a (inr m) s =
    free_cache-finds xs heap (if (heap x).sync then old else some x) a m s

pub get_cache_total :
    (fuel : ℕ) (p : Pool)
    → p.dynamic_size ≡ false
    → get_cache (suc fuel) p
      ≡ ok (free_cache p.caches p.heap none, record p { recalc_period = p.recalc_period - 1 })
unfolding get_cache resized
get_cache_total fuel p d = elim (Option-cases (free_cache p.caches p.heap none)) [
  | inl n ↦ ground (arith, n, d)
  | inr (a, n) ↦ ground (arith, n, d)
]

module _ {P : Type 0} {write : Cache → P → Result (Cache × P)} {stored : P → List Meas → Type 0}
    {fits : Meas → Bool} {limit : ℕ} (is_writer : IsWriter write stored fits limit) (fuel : ℕ) where
  -- The cache that stood first in the queue of `st` is not marked.
  FirstFree : Store P → Store P → Type 0
  FirstFree st st' = (a : ℕ) (rest : List ℕ) → st.queue ≡ a ∷ rest → (cache_at a st').sync ≡ false

  write_first-Ends :
      (kept : List Meas) (st : Store P)
      → IsKeeping stored fits limit NoneLive kept st
      → Ends (Failed write stored fits limit) (FirstFree st) (write_first write (suc fuel) st)
  unfolding write_first FirstFree
  write_first-Ends kept st h = elim (List-cases st.queue) [
    | inl q ↦ inl (st, ground (arith, q), λ a rest e. cc (sym q ∙ e))
    | inr (a, rest, q) ↦ elim (Result-cases (write (cache_at a st) st.pages)) [
      | inl (fault, e) ↦ inr (
        fault,
        ground (arith, q, e),
        (cache_at a st, st.pages, kept, h.fine a, h.stored_pages, e),
      )
      | inr ((c, p), e) ↦
          let w = is_writer (cache_at a st) c st.pages p kept (h.fine a) h.stored_pages e in
          inl (
            record (put_at a c st) { queue = rest; pages = p },
            ground (arith, q, e),
            λ b rest' e'.
                let same : a ≡ b = cc (sym q ∙ e') in
                ap (λ x. (put_cache a c st.pool.heap x).sync) (sym same)
                ∙ ap (λ (x : Cache). x.sync) (put_cache-same st.pool.heap a c)
                ∙ w.free,
          )
    ]
  ]

  write_some-Ends :
      (n : ℕ) (kept : List Meas) (st : Store P)
      → IsKeeping stored fits limit NoneLive kept st
      → 0 < n
      → Ends (Failed write stored fits limit) (FirstFree st) (write_some write (suc fuel) n st)
  unfolding write_some FirstFree
  write_some-Ends zero kept st h l = absurd (omega arith)
  write_some-Ends (suc zero) kept st h l =
      then-Ends (write_first write (suc fuel) st) (write_some write (suc fuel) zero)
        (write_first-Ends kept st h) (λ st₁ e frees. inl (st₁, refl, frees))
  write_some-Ends (suc (suc n)) kept st h l =
      then-Ends (write_first write (suc fuel) st) (write_some write (suc fuel) (suc n))
        (write_first-Ends kept st h)
        (λ st₁ e₁ frees.
          let one = write_first-Moved is_writer (suc fuel) kept st st₁ h e₁ in
          map-Ends (write_some write (suc fuel) (suc n) st₁)
            (λ st₂ e₂ _ a rest q.
              let more =
                write_some-Moved is_writer (suc fuel) (suc n) one.kept' st₁ st₂ one.keeping e₂ in
              more.unmarked a (frees a rest q))
            (write_some-Ends (suc n) one.kept' st₁ one.keeping (omega arith)))

  -- The thread writes, or a call of the writer fails.
  pub written-Ends :
      (n : ℕ) (kept : List Meas) (st : Store P)
      → IsKeeping stored fits limit NoneLive kept st
      → Ends
          (Failed write stored fits limit)
          (λ st'. length st'.queue ≤ length st.queue - n)
          (write_some write (suc fuel) n st)
  unfolding write_some
  written-Ends zero kept st h = inl (st, refl, omega arith)
  written-Ends (suc n) kept st h =
      map-Ends (write_some write (suc fuel) (suc n) st)
        (λ st' e _. write_some_shorter write (suc fuel) (suc n) st st' e)
        (write_some-Ends (suc n) kept st h (omega arith))

  wait_cache-Ends :
      (turns : List ℕ) (kept : List Meas) (st : Store P) (a : ℕ) (rest : List ℕ)
      → IsKeeping stored fits limit NoneLive kept st
      → st.queue ≡ a ∷ rest
      → IsIn a st.pool.caches
      → HasTurn turns
      → Ends
          (Failed write stored fits limit)
          (λ st'. length st'.queue ≤ length st.queue)
          (wait_cache write (suc fuel) turns st)
  unfolding wait_cache FirstFree
  wait_cache-Ends [] kept st a rest h q m t = absurd t
  wait_cache-Ends (zero ∷ turns) kept st a rest h q m (inl l) = absurd (omega arith)
  wait_cache-Ends (zero ∷ turns) kept st a rest h q m (inr t) =
      elim (Option-cases (free_cache st.pool.caches st.pool.heap none)) [
        | inl none_free ↦
            Ends-eq (ground (arith, get_cache_total fuel st.pool h.fixed, none_free)) (
              wait_cache-Ends turns kept (ticked is_writer (suc fuel) st) a rest
                (ticked-IsKeeping is_writer (suc fuel) kept st h) q m t)
        | inr (b, is_free) ↦ inl (
          picked is_writer (suc fuel) b st,
          ground (arith, get_cache_total fuel st.pool h.fixed, is_free),
          omega arith,
        )
      ]
  wait_cache-Ends (suc n ∷ turns) kept st a rest h q m t =
      elim (write_some-Ends (suc n) kept st h (omega arith)) [
        | inl (st₁, e₁, frees) ↦
            let moved = write_some-Moved is_writer (suc fuel) (suc n) kept st st₁ h e₁ in
            let member : IsIn a st₁.pool.caches = rw moved.caches m in
            let (b, is_free) =
              free_cache-finds st₁.pool.caches st₁.pool.heap none a member (frees a rest q) in
            inl (
              picked is_writer (suc fuel) b st₁,
              ground (arith, e₁, get_cache_total fuel st₁.pool moved.keeping.fixed, is_free),
              omega (arith, write_some_shorter write (suc fuel) (suc n) st st₁ e₁),
            )
        | inr (fault, e, failed) ↦ inr (fault, ground (arith, e), failed)
      ]

  -- The first cache of the queue, after the current one was put to its end.
  first-IsIn :
      (st : Store P)
      → IsPooled st
      → (a : ℕ) × (rest : List ℕ) × (st.queue ++ st.current ∷ [] ≡ a ∷ rest) × IsIn a st.pool.caches
  first-IsIn st (c, m) = elim (List-cases st.queue) [
    | inl q ↦ (st.current, [], ap (λ xs. xs ++ st.current ∷ []) q, c)
    | inr (a, rest, q) ↦ (
      a,
      rest ++ st.current ∷ [],
      ap (λ xs. xs ++ st.current ∷ []) q,
      (subst (All (λ b. IsIn b st.pool.caches)) q m).0,
    )
  ]

  -- `writeCache` ends: it returns, or a call of the writer fails. It adds one cache to the queue at most.
  pub write_cache-Ends :
      (turns : List ℕ) (kept : List Meas) (st : Store P)
      → IsStore stored fits limit kept st
      → IsPooled st
      → HasTurn turns
      → Ends
          (Failed write stored fits limit)
          (λ st'. length st'.queue ≤ length st.queue + 1)
          (write_cache write (suc fuel) turns st)
  unfolding write_cache
  write_cache-Ends turns kept st h pooled t =
      let (a, rest, q, m) = first-IsIn st pooled in
      let (k, _) = shelved-IsKeeping kept st h in
      elim (Bool-cases ((cache_at st.current st).size == 0)) [
        | inl b ↦ inl (st, ground (arith, b), omega arith)
        | inr b ↦ Ends-eq (ground (arith, b)) (
            map-Ends (wait_cache write (suc fuel) turns (shelved st))
              (λ st' e l. omega (arith, l, length-append st.queue (st.current ∷ [])))
              (wait_cache-Ends turns kept (shelved st) a rest k q m t))
      ]

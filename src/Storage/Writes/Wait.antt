-- ===== src/Storage/Writes/Wait.antt =====
-- The wait for a free cache in `writeCache` of libnkvdb/storage.cpp.
use nkvdb.Prelude.{
  ℕ, zero, suc, ◌-◌, ◌≡◌, refl, sym, ap, ◌∙◌, ◌⊎◌, inl, inr, Bool, false, List, [], ◌∷◌, Option,
  none, some, arith, All, Bool-cases, Option-cases, ℕ_discrete,
}
use mathlib.Core.Path.{subst}
use nkvdb.Prelude.Result.{Result, ok, >>=-eq-ok, ok-injective, ◌>>=◌}
use nkvdb.Meas.{Meas}
use nkvdb.Cache.{Cache, set_storage}
use nkvdb.Cache.Content.{contents}
use nkvdb.CachePool.{Pool, put_cache, get_cache, free_cache, resized}
use nkvdb.Storage.Writes.{Store, cache_at, put_at, write_some, wait_cache}
use nkvdb.Storage.Writes.Keeping.{
  IsIn, IsPooled, not_marked, IsFine, IsWriter, IsKeeping, IsStore, NoneLive, gone, put_cache-same,
  put_cache-other, put_cache-all, queued-put, marked-put,
}
use nkvdb.Storage.Writes.Thread.{Moved, write_some-Moved}

found_or_old :
    (xs : List ℕ) (heap : ℕ → Cache) (old : Option ℕ) (a : ℕ)
    → free_cache xs heap old ≡ some a
    → (old ≡ some a) ⊎ (((heap a).sync ≡ false) × IsIn a xs)
unfolding free_cache
found_or_old [] heap old a e = inl e
found_or_old (x ∷ xs) heap old a e = elim (Bool-cases (heap x).sync) [
  | inl b ↦ elim (found_or_old xs heap old a (ground (arith, b, e))) [
    | inl f ↦ inl f
    | inr f ↦ inr (f.0, inr f.1)
  ]
  | inr b ↦ elim (found_or_old xs heap (some x) a (ground (arith, b, e))) [
    | inl f ↦
        let same : x ≡ a = cc f in inr (subst (λ y. (heap y).sync ≡ false) same b, inl (sym same))
    | inr f ↦ inr (f.0, inr f.1)
  ]
]

-- A cache that `getCache` hands out is one of the pool and not marked.
pub free_cache-unmarked :
    (xs : List ℕ) (heap : ℕ → Cache) (a : ℕ)
    → free_cache xs heap none ≡ some a
    → ((heap a).sync ≡ false) × IsIn a xs
free_cache-unmarked xs heap a e = elim (found_or_old xs heap none a e) [
  | inl x ↦ absurd (cc x)
  | inr x ↦ x
]

module _ {P : Type 0} {write : Cache → P → Result (Cache × P)} {stored : P → List Meas → Type 0}
    {fits : Meas → Bool} {limit : ℕ} (is_writer : IsWriter write stored fits limit) (fuel : ℕ) where
  -- A pool of fixed size stays as it is.
  get_cache-fixed :
      (depth : ℕ) (p q : Pool) (r : Option ℕ)
      → p.dynamic_size ≡ false
      → get_cache depth p ≡ ok (r, q)
      → (free_cache p.caches p.heap none ≡ r)
        × (record p { recalc_period = p.recalc_period - 1 } ≡ q)
  unfolding get_cache resized
  get_cache-fixed zero p q r d e = cc e
  get_cache-fixed (suc depth) p q r d e = elim (Option-cases (free_cache p.caches p.heap none)) [
    | inl n ↦
        let h : ◌≡◌ {A = Option ℕ × Pool} (none, record p { recalc_period = p.recalc_period - 1 })
            (r, q) =
          ok-injective _ (r, q) (ground (arith, e, n, d)) in
        (n ∙ ap (λ (x : Option ℕ × Pool). x.0) h, ap (λ (x : Option ℕ × Pool). x.1) h)
    | inr (a, n) ↦
        let h : ◌≡◌ {A = Option ℕ × Pool} (some a, record p { recalc_period = p.recalc_period - 1 })
            (r, q) =
          ok-injective _ (r, q) (ground (arith, e, n, d)) in
        (n ∙ ap (λ (x : Option ℕ × Pool). x.0) h, ap (λ (x : Option ℕ × Pool). x.1) h)
  ]

  -- The current cache of a storage, and what is in it.
  pub record Ready (kept : List Meas) (st st' : Store P) : Type 0 where
    pub kept' : List Meas
    pub store : IsStore stored fits limit kept' st'
    pub emptied : contents (cache_at st'.current st') ≡ []
    pub balance : (f : Meas → Bool) → gone f kept' st' ≡ gone f kept st
    pub past : st'.past_time ≡ st.past_time
    pub pooled : All (λ a. IsIn a st.pool.caches) st.queue → IsPooled st'

  IsFine-set_storage : (c : Cache) → IsFine fits limit c → IsFine fits limit (set_storage c)
  unfolding set_storage
  IsFine-set_storage c h = record {
    valid = record {
      array = h.valid.array;
      counted = h.valid.counted;
      fits = h.valid.fits;
      small = h.valid.small;
    };
    some_room = h.some_room;
    at_most = h.at_most;
    fitting = h.fitting;
  }

  -- Taking a free cache for the current one.
  abbrev pub picked : ℕ → Store P → Store P
  picked a st =
      let st₂ = record st {
        pool = record (st.pool) { recalc_period = st.pool.recalc_period - 1 };
      } in
      put_at a (set_storage (cache_at a st)) (record st₂ { current = a })

  pub picked-IsStore :
      (a : ℕ) (kept : List Meas) (st : Store P)
      → IsKeeping stored fits limit NoneLive kept st
      → (cache_at a st).sync ≡ false
      → IsStore stored fits limit kept (picked a st)
        × (contents (cache_at a (picked a st)) ≡ [])
        × ((f : Meas → Bool) → gone f kept (picked a st) ≡ gone f kept st)
  unfolding set_storage
  picked-IsStore a kept st h s =
      let heap = st.pool.heap in
      let c = set_storage (heap a) in
      let fresh = not_marked heap a st.queue s h.marked in
      let none_in : contents (heap a) ≡ [] = elim (h.empty a s) [ inl x ↦ absurd x | inr x ↦ x ] in
      let at : put_cache a c heap a ≡ c = put_cache-same heap a c in
      (
        record {
          keeping = record {
            fixed = h.fixed;
            fine =
                put_cache-all heap a c (IsFine fits limit) (IsFine-set_storage (heap a) (h.fine a))
                  h.fine;
            marked = marked-put heap a c st.queue fresh h.marked;
            empty = λ x y. elim (ℕ_discrete x a) [
              | yes e ↦ inl e
              | no n ↦
                  let old = put_cache-other heap a c x n in
                  elim (h.empty x (ap (λ (x : Cache). x.sync) (sym old) ∙ y)) [
                    | inl z ↦ absurd z
                    | inr z ↦ inr (ap contents old ∙ z)
                  ]
            ];
            distinct = h.distinct;
            stored_pages = h.stored_pages;
          };
          open_current = ap (λ (x : Cache). x.sync) at ∙ s;
        },
        ap contents at ∙ none_in,
        λ f. omega (arith, queued-put heap a c f st.queue fresh),
      )

  picked-Ready :
      (a : ℕ) (kept : List Meas) (st : Store P)
      → IsKeeping stored fits limit NoneLive kept st
      → (cache_at a st).sync ≡ false
      → IsIn a st.pool.caches
      → Ready kept st (picked a st)
  picked-Ready a kept st h s member =
      let (store, emptied, balance) = picked-IsStore a kept st h s in
      record {
        kept' = kept;
        store = store;
        emptied = emptied;
        balance = balance;
        past = refl;
        pooled = λ x. (member, x);
      }

  abbrev pub ticked : Store P → Store P
  ticked st = record st { pool = record (st.pool) { recalc_period = st.pool.recalc_period - 1 } }

  pub ticked-IsKeeping :
      (kept : List Meas) (st : Store P)
      → IsKeeping stored fits limit NoneLive kept st
      → IsKeeping stored fits limit NoneLive kept (ticked st)
  ticked-IsKeeping kept st h = record {
    fixed = h.fixed;
    fine = h.fine;
    marked = h.marked;
    empty = h.empty;
    distinct = h.distinct;
    stored_pages = h.stored_pages;
  }

  Moved-ticked :
      {kept : List Meas} {st st₁ : Store P}
      → Moved is_writer fuel kept st st₁
      → Moved is_writer fuel kept st (ticked st₁)
  Moved-ticked {st₁ = st₁} m = record {
    kept' = m.kept';
    keeping = ticked-IsKeeping m.kept' st₁ m.keeping;
    balance = m.balance;
    past = m.past;
    current = m.current;
    caches = m.caches;
    unmarked = m.unmarked;
    members = m.members;
  }

  Ready-after :
      {kept : List Meas} {st st₁ st' : Store P}
      → (m : Moved is_writer fuel kept st st₁) → Ready m.kept' st₁ st'
      → Ready kept st st'
  Ready-after {st₁ = st₁} m r = record {
    kept' = r.kept';
    store = r.store;
    emptied = r.emptied;
    balance = λ f. r.balance f ∙ m.balance f;
    past = r.past ∙ m.past;
    pooled = λ x. r.pooled (m.members st₁.pool.caches (rw m.caches x));
  }

  pub wait_cache-Ready :
      (turns : List ℕ) (kept : List Meas) (st st' : Store P)
      → IsKeeping stored fits limit NoneLive kept st
      → wait_cache write fuel turns st ≡ ok st'
      → Ready kept st st'
  unfolding wait_cache
  wait_cache-Ready [] kept st st' h e = cc e
  wait_cache-Ready (n ∷ turns) kept st st' h e =
      let last : Option ℕ × Pool → Store P → Result (Store P) = λ r st₁.
        let st₂ = record st₁ { pool = r.1 } in
        elim r.0 [
          | none ↦ wait_cache write fuel turns st₂
          | some a ↦ ok (put_at a (set_storage (cache_at a st₂)) (record st₂ { current = a }))
        ] in
      let next : Store P → Result (Store P) = λ st₁. get_cache fuel st₁.pool >>= λ r. last r st₁ in
      let (st₁, e₁, e₂) = >>=-eq-ok (write_some write fuel n st) next {y = st'} e in
      let m = write_some-Moved is_writer fuel n kept st st₁ h e₁ in
      let ((r, q), e₃, e₄) = >>=-eq-ok (get_cache fuel st₁.pool) (λ r. last r st₁) {y = st'} e₂ in
      let (found, pool) = get_cache-fixed fuel st₁.pool q r m.keeping.fixed e₃ in
      elim (Option-cases r) [
        | inl none_free ↦
            let left : wait_cache write fuel turns (ticked st₁) ≡ ok st' =
              ap (λ q. wait_cache write fuel turns (record st₁ { pool = q })) pool
              ∙ ap (λ o. last (o, q) st₁) (sym none_free)
              ∙ e₄ in
            let t = Moved-ticked m in
            Ready-after t (wait_cache-Ready turns t.kept' (ticked st₁) st' t.keeping left)
        | inr (a, is_free) ↦
            let left : ◌≡◌ {A = Result (Store P)} (ok (picked a st₁)) (ok st') =
              ap (λ q. last (some a, q) st₁) pool ∙ ap (λ o. last (o, q) st₁) (sym is_free) ∙ e₄ in
            let unmarked : ((cache_at a st₁).sync ≡ false) × IsIn a st₁.pool.caches =
              free_cache-unmarked st₁.pool.caches st₁.pool.heap a (found ∙ is_free) in
            Ready-after m (
              subst (Ready m.kept' st₁) (ok-injective (picked a st₁) st' left)
                (picked-Ready a m.kept' st₁ m.keeping unmarked.0 unmarked.1))
      ]

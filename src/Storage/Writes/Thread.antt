-- ===== src/Storage/Writes/Thread.antt =====
-- The thread's part in `writeCache` of libnkvdb/storage.cpp.
use nkvdb.Prelude.{
  length, ◌≤◌, ◌-◌, ℕ, zero, suc, ◌≡◌, refl, ap, ◌∙◌, ◌⊎◌, inl, inr, Bool, true, false, List, [],
  ◌∷◌, arith, All, List-cases, ℕ_discrete,
}
use mathlib.Core.Path.{subst}
use nkvdb.Prelude.Result.{Result, ok, >>=-eq-ok, ok-injective}
use nkvdb.Meas.{Meas}
use nkvdb.Cache.{Cache}
use nkvdb.Cache.Content.{contents}
use nkvdb.CachePool.{put_cache}
use nkvdb.Storage.Writes.{Store, cache_at, put_at, write_first, write_some}
use nkvdb.Storage.Writes.Keeping.{
  IsIn, IsFine, Wrote, IsWriter, queued, IsDistinct, IsKeeping, NoneLive, gone, put_cache-same,
  put_cache-other, put_cache-all, queued-put, marked-put, IsFine-emptied,
}

module _ {P : Type 0} (write : Cache → P → Result (Cache × P)) (fuel : ℕ) where
  -- What the thread writes leaves the queue.
  write_first_shorter :
      (st st' : Store P)
      → write_first write fuel st ≡ ok st'
      → length st'.queue ≤ length st.queue - 1
  unfolding write_first
  write_first_shorter st st' e = elim (List-cases st.queue) [
    | inl q ↦
        let same = ok-injective st st' (ground (arith, e, q)) in
        omega (arith, ap (λ (x : Store P). length x.queue) same, ap length q)
    | inr (a, rest, q) ↦
        let next : Cache × P → Result (Store P) =
          λ r. ok (record (put_at a r.0 st) { queue = rest; pages = r.1 }) in
        let ((c, p), _, e₂) =
          >>=-eq-ok (write (cache_at a st) st.pages) next {y = st'} (ground (arith, e, q)) in
        let same = ok-injective (record (put_at a c st) { queue = rest; pages = p }) st' e₂ in
        omega (arith, ap (λ (x : Store P). length x.queue) same, ap length q)
  ]

  pub write_some_shorter :
      (n : ℕ) (st st' : Store P)
      → write_some write fuel n st ≡ ok st'
      → length st'.queue ≤ length st.queue - n
  unfolding write_some
  write_some_shorter zero st st' e =
      omega (arith, ap (λ (x : Store P). length x.queue) (ok-injective st st' e))
  write_some_shorter (suc n) st st' e =
      let (st₁, e₁, e₂) =
        >>=-eq-ok (write_first write fuel st) (write_some write fuel n) {y = st'} e in
      omega (arith, write_first_shorter st st₁ e₁, write_some_shorter n st₁ st' e₂)

module _ {P : Type 0} {write : Cache → P → Result (Cache × P)} {stored : P → List Meas → Type 0}
    {fits : Meas → Bool} {limit : ℕ} (is_writer : IsWriter write stored fits limit) (fuel : ℕ) where
  -- A step of the thread moves measurements from the queue to the pages.
  pub record Moved (kept : List Meas) (st st' : Store P) : Type 0 where
    pub kept' : List Meas
    pub keeping : IsKeeping stored fits limit NoneLive kept' st'
    pub balance : (f : Meas → Bool) → gone f kept' st' ≡ gone f kept st
    pub past : st'.past_time ≡ st.past_time
    pub current : st'.current ≡ st.current
    pub caches : st'.pool.caches ≡ st.pool.caches
    pub unmarked : (x : ℕ) → (cache_at x st).sync ≡ false → (cache_at x st').sync ≡ false
    pub members : (xs : List ℕ) → All (λ a. IsIn a xs) st.queue → All (λ a. IsIn a xs) st'.queue

  pub unmoved-Moved :
      (kept : List Meas) (st : Store P)
      → IsKeeping stored fits limit NoneLive kept st
      → Moved kept st st
  unmoved-Moved kept st h = record {
    kept' = kept;
    keeping = h;
    balance = λ f. refl;
    past = refl;
    current = refl;
    caches = refl;
    unmarked = λ x u. u;
    members = λ xs x. x;
  }

  Wrote-Moved :
      (a : ℕ) (rest : List ℕ) (c : Cache) (p : P) (kept : List Meas) (st : Store P)
      → st.queue ≡ a ∷ rest
      → IsKeeping stored fits limit NoneLive kept st
      → Wrote stored (cache_at a st) c p kept
      → Moved kept st (record (put_at a c st) { queue = rest; pages = p })
  Wrote-Moved a rest c p kept st q h w =
      let distinct : IsDistinct (a ∷ rest) = subst IsDistinct q h.distinct in
      let marked : All (λ b. (cache_at b st).sync ≡ true) (a ∷ rest) =
        subst (All (λ b. (cache_at b st).sync ≡ true)) q h.marked in
      let heap = st.pool.heap in
      record {
        kept' = w.kept';
        keeping = record {
          fixed = h.fixed;
          fine =
              put_cache-all heap a c (IsFine fits limit)
                (IsFine-emptied fits limit (heap a) c (h.fine a) w.valid w.same_size w.emptied)
                h.fine;
          marked = marked-put heap a c rest distinct.0 marked.1;
          empty =
              put_cache-all heap a c (λ x. x.sync ≡ false → ⊥ ⊎ (contents x ≡ []))
                (λ s. inr w.emptied) h.empty;
          distinct = distinct.1;
          stored_pages = w.stored';
        };
        balance = λ f.
            omega (arith, w.balance f, queued-put heap a c f rest distinct.0, ap (queued f heap) q);
        past = refl;
        current = refl;
        caches = refl;
        unmarked = λ x u. elim (ℕ_discrete x a) [
          | yes y ↦
              ap (λ y. (put_cache a c heap y).sync) y
              ∙ ap (λ (k : Cache). k.sync) (put_cache-same heap a c)
              ∙ w.free
          | no n ↦ ap (λ (k : Cache). k.sync) (put_cache-other heap a c x n) ∙ u
        ];
        members = λ xs x. (subst (All (λ a. IsIn a xs)) q x).1;
      }

  pub write_first-Moved :
      (kept : List Meas) (st st' : Store P)
      → IsKeeping stored fits limit NoneLive kept st
      → write_first write fuel st ≡ ok st'
      → Moved kept st st'
  unfolding write_first
  write_first-Moved kept st st' h e = elim (List-cases st.queue) [
    | inl q ↦
        let same : st ≡ st' = ok-injective st st' (ground (arith, e, q)) in
        subst (Moved kept st) same (unmoved-Moved kept st h)
    | inr (a, rest, q) ↦
        let next : Cache × P → Result (Store P) =
          λ r. ok (record (put_at a r.0 st) { queue = rest; pages = r.1 }) in
        let ((c, p), e₁, e₂) =
          >>=-eq-ok (write (cache_at a st) st.pages) next {y = st'} (ground (arith, e, q)) in
        let w = is_writer (cache_at a st) c st.pages p kept (h.fine a) h.stored_pages e₁ in
        subst (Moved kept st)
          (ok-injective (record (put_at a c st) { queue = rest; pages = p }) st' e₂)
          (Wrote-Moved a rest c p kept st q h w)
  ]

  pub then-Moved :
      {kept : List Meas} {st st₁ st' : Store P}
      → (one : Moved kept st st₁) → Moved one.kept' st₁ st'
      → Moved kept st st'
  then-Moved one more = record {
    kept' = more.kept';
    keeping = more.keeping;
    balance = λ f. more.balance f ∙ one.balance f;
    past = more.past ∙ one.past;
    current = more.current ∙ one.current;
    caches = more.caches ∙ one.caches;
    unmarked = λ x u. more.unmarked x (one.unmarked x u);
    members = λ xs x. more.members xs (one.members xs x);
  }

  pub write_some-Moved :
      (n : ℕ) (kept : List Meas) (st st' : Store P)
      → IsKeeping stored fits limit NoneLive kept st
      → write_some write fuel n st ≡ ok st'
      → Moved kept st st'
  unfolding write_some
  write_some-Moved zero kept st st' h e =
      subst (Moved kept st) (ok-injective st st' e) (unmoved-Moved kept st h)
  write_some-Moved (suc n) kept st st' h e =
      let (st₁, e₁, e₂) =
        >>=-eq-ok (write_first write fuel st) (write_some write fuel n) {y = st'} e in
      let one = write_first-Moved kept st st₁ h e₁ in
      then-Moved one (write_some-Moved n one.kept' st₁ st' one.keeping e₂)

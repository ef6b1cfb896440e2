-- ===== src/Storage/Writes/Keeping.antt =====
-- The measurements that a storage of libnkvdb/storage.cpp keeps in caches and pages, by counting.
use nkvdb.Prelude.{
  ℕ, ◌+◌, ◌≤◌, ◌<◌, ◌≡◌, ◌≢◌, refl, sym, ap, ◌∙◌, ◌⊎◌, inl, inr, Bool, true, false, List, [], ◌∷◌,
  ◌++◌, not, arith, ◌==◌, length, select, select-append, All, length-append, Bool-cases,
}
use mathlib.Core.Path.{subst}
use nkvdb.Prelude.Result.{Result, ok}
use nkvdb.Meas.{Meas}
use nkvdb.Cache.{Cache}
use nkvdb.Cache.Content.{contents, IsValid}
use nkvdb.CachePool.{put_cache}
use nkvdb.Storage.Writes.{Store, cache_at}

-- How many measurements of a list pass a test.
abbrev pub tally : (Meas → Bool) → List Meas → ℕ
tally f ms = length (select f ms)

pub tally-append :
    (f : Meas → Bool) (xs ys : List Meas) → tally f (xs ++ ys) ≡ tally f xs + tally f ys
tally-append f xs ys =
    omega (arith, length-append (select f xs) (select f ys), ap length (select-append f xs ys))

-- A cache that can be written: it has room for at least one measurement and for `limit` at most,
-- and what it holds fits into a page.
pub record IsFine (fits : Meas → Bool) (limit : ℕ) (c : Cache) : Type 0 where
  pub valid : IsValid c
  pub some_room : 0 < c.max_size
  pub at_most : c.max_size ≤ limit
  pub fitting : tally (λ m. not (fits m)) (contents c) ≡ 0

-- What a call of the writer makes of a cache and of pages that keep the measurements `kept`.
pub record Wrote {P : Type 0} (stored : P → List Meas → Type 0) (c c' : Cache) (p' : P)
    (kept : List Meas) : Type 0 where
  pub valid : IsValid c'
  pub same_size : c'.max_size ≡ c.max_size
  pub emptied : contents c' ≡ []
  pub free : c'.sync ≡ false
  pub kept' : List Meas
  pub stored' : stored p' kept'
  pub balance : (f : Meas → Bool) → tally f kept' ≡ tally f kept + tally f (contents c)

-- What the storage relies on in a writer.
abbrev pub IsWriter :
    {P : Type 0}
    → (Cache → P → Result (Cache × P))
    → (P → List Meas → Type 0)
    → (Meas → Bool)
    → ℕ
    → Type 0
IsWriter {P} write stored fits limit =
    (c c' : Cache) (p p' : P) (kept : List Meas)
    → IsFine fits limit c
    → stored p kept
    → write c p ≡ ok (c', p')
    → Wrote stored c c' p' kept

-- The measurements in the caches of a queue.
abbrev pub queued : (Meas → Bool) → (ℕ → Cache) → List ℕ → ℕ
queued f heap [] = 0
queued f heap (a ∷ rest) = tally f (contents (heap a)) + queued f heap rest

-- No address stands twice in a list.
abbrev pub IsDistinct : List ℕ → Type 0
IsDistinct [] = Unit
IsDistinct (a ∷ rest) = All (λ b. b ≢ a) rest × IsDistinct rest

-- A storage whose pages keep `kept`: its pool does not change its size, the caches of the queue are
-- marked as being written, and any other one that is not marked is empty, but for those that
-- `live` names. (All addresses have caches, those that were never given out too.)
pub record IsKeeping {P : Type 0} (stored : P → List Meas → Type 0) (fits : Meas → Bool) (limit : ℕ)
    (live : ℕ → Type 0) (kept : List Meas) (st : Store P) : Type 0 where
  pub fixed : st.pool.dynamic_size ≡ false
  pub fine : (a : ℕ) → IsFine fits limit (cache_at a st)
  pub marked : All (λ a. (cache_at a st).sync ≡ true) st.queue
  pub empty : (a : ℕ) → (cache_at a st).sync ≡ false → live a ⊎ (contents (cache_at a st) ≡ [])
  pub distinct : IsDistinct st.queue
  pub stored_pages : stored st.pages kept

-- In the loop of `writeCache` there is no current cache.
abbrev pub NoneLive : ℕ → Type 0
NoneLive a = ⊥

-- What pages and queue have.
abbrev pub gone : {P : Type 0} → (Meas → Bool) → List Meas → Store P → ℕ
gone f kept st = tally f kept + queued f st.pool.heap st.queue

-- A storage that can be appended to.
pub record IsStore {P : Type 0} (stored : P → List Meas → Type 0) (fits : Meas → Bool) (limit : ℕ)
    (kept : List Meas) (st : Store P) : Type 0 where
  pub keeping : IsKeeping stored fits limit (λ a. a ≡ st.current) kept st
  pub open_current : (cache_at st.current st).sync ≡ false

abbrev pub IsIn : ℕ → List ℕ → Type 0
IsIn a [] = ⊥
IsIn a (b ∷ rest) = (a ≡ b) ⊎ IsIn a rest

-- The pool has the current cache and those of the queue.
abbrev pub IsPooled : {P : Type 0} → Store P → Type 0
IsPooled st = IsIn st.current st.pool.caches × All (λ a. IsIn a st.pool.caches) st.queue

-- All that is on its way.
abbrev pub total : {P : Type 0} → (Meas → Bool) → List Meas → Store P → ℕ
total f kept st = gone f kept st + tally f (contents (cache_at st.current st))

module _ (heap : ℕ → Cache) (a : ℕ) (c : Cache) where
  pub put_cache-same : put_cache a c heap a ≡ c
  put_cache-same = ground arith

  pub put_cache-other : (x : ℕ) → x ≢ a → put_cache a c heap x ≡ heap x
  put_cache-other x h = ground (arith, h)

  -- What holds for the new cache and for the old ones, holds for all.
  pub put_cache-all :
      (Q : Cache → Type 0) → Q c → ((x : ℕ) → Q (heap x)) → (x : ℕ) → Q (put_cache a c heap x)
  put_cache-all Q new old x = elim (Bool-cases (x == a)) [
    | inl h ↦ subst Q (ground (arith, h)) new
    | inr h ↦ subst Q (ground (arith, h)) (old x)
  ]

  pub queued-put :
      (f : Meas → Bool) (q : List ℕ)
      → All (λ b. b ≢ a) q
      → queued f (put_cache a c heap) q ≡ queued f heap q
  queued-put f [] h = refl
  queued-put f (b ∷ q) h = ground (arith, h.0, queued-put f q h.1)

  pub marked-put :
      (q : List ℕ)
      → All (λ b. b ≢ a) q
      → All (λ b. (heap b).sync ≡ true) q
      → All (λ b. (put_cache a c heap b).sync ≡ true) q
  marked-put [] h m = tt
  marked-put (b ∷ q) h m =
      (ap (λ (x : Cache). x.sync) (put_cache-other b h.0) ∙ m.0, marked-put q h.1 m.1)

pub IsFine-emptied :
    (fits : Meas → Bool) (limit : ℕ) (c c' : Cache)
    → IsFine fits limit c
    → IsValid c'
    → c'.max_size ≡ c.max_size
    → contents c' ≡ []
    → IsFine fits limit c'
IsFine-emptied fits limit c c' h v e z = record {
  valid = v;
  some_room = omega (arith, e, h.some_room);
  at_most = omega (arith, e, h.at_most);
  fitting = ap (tally (λ m. not (fits m))) z;
}

pub not_marked :
    (heap : ℕ → Cache) (a : ℕ) (q : List ℕ)
    → (heap a).sync ≡ false
    → All (λ b. (heap b).sync ≡ true) q
    → All (λ b. b ≢ a) q
not_marked heap a [] s h = tt
not_marked heap a (b ∷ q) s h =
    (λ e. cc (sym s ∙ ap (λ x. (heap x).sync) (sym e) ∙ h.0), not_marked heap a q s h.1)

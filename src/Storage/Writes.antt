-- ===== src/Storage/Writes.antt =====
-- The appends of class Storage, libnkvdb/storage.cpp: measurements go to the current cache, and a full
-- cache to the queue of the thread that writes it. The thread shows itself to the storage only
-- in the loop of `writeCache`, between two calls of `getCache`; `turns` says how many caches it
-- has written before each. `write` is `AsyncWriter::call`, on a state of pages of any type.
pub mod Keeping
pub mod Thread
pub mod Wait
pub mod Current
pub mod Balance
pub mod Arrays
pub mod Pages
pub mod Flush
pub mod Ends
pub mod Turns
pub mod Returns
pub mod Start
pub mod Runs
mod Tests
use nkvdb.Prelude.{
  ℕ, zero, suc, Bool, true, false, List, [], ◌∷◌, ◌++◌, not, Option, none, some, ◌==◌,
  if◌then◌else◌, length, drop,
}
use nkvdb.Prelude.Result.{Result, ok, err, no_fuel, undefined, ◌>>=◌}
use nkvdb.Meas.{Meas, AppendResult, no_append, ◌⊕◌}
use nkvdb.Cache.{Cache, make_cache, is_full, sync_begin, set_storage, append, append_array}
use nkvdb.Cache.Current.{CurValues, no_values}
use nkvdb.CachePool.{Pool, put_cache, make_pool, get_cache}

-- `current` is the address of `m_cache`, whose pool has the heap; `queue` is that of
-- `m_cache_writer`, with the cache that the thread has taken from it and is writing in front.
pub record Store (P : Type 0) : Type 0 where
  pub pool : Pool
  pub current : ℕ
  pub queue : List ℕ
  pub cur_values : CurValues
  pub past_time : ℕ
  pub pages : P

-- `isBusy` of `m_cache_writer`: a cache that the thread has taken from the queue is not counted.
abbrev pub is_writer_busy : Bool → List ℕ → Bool
is_writer_busy popped [] = false
is_writer_busy popped (a ∷ []) = not popped
is_writer_busy popped (a ∷ b ∷ rest) = true

module _ {P : Type 0} where
  abbrev pub cache_at : ℕ → Store P → Cache
  cache_at a st = st.pool.heap a

  abbrev pub put_at : ℕ → Cache → Store P → Store P
  put_at a c st = record st { pool = record (st.pool) { heap = put_cache a c st.pool.heap } }

-- The constructor, with the sizes of the pool and of its caches (`defaultcachePoolSize` and
-- `defaultcacheSize`), on pages that are there. Before it every address has a new cache.
unfoldable pub new_store : {P : Type 0} → ℕ → ℕ → ℕ → P → Result (Store P)
unfolding get_cache
new_store fuel pool_size cache_size pages = do
  r ← get_cache fuel (make_pool pool_size cache_size (λ a. make_cache cache_size) 0)
  elim r.0 [
    | none ↦ err undefined
    | some a ↦
        let pool = record (r.1) { heap = put_cache a (set_storage (r.1.heap a)) r.1.heap } in
        ok (record {
          pool = pool;
          current = a;
          queue = [];
          cur_values = no_values;
          past_time = 0;
          pages = pages;
        })
  ]

module _ {P : Type 0} (write : Cache → P → Result (Cache × P)) (fuel : ℕ) where
  -- The thread writes the first cache of the queue.
  unfoldable pub write_first : Store P → Result (Store P)
  write_first st = elim st.queue [
    | [] ↦ ok st
    | a ∷ rest ↦ do
      r ← write (cache_at a st) st.pages
      ok (record (put_at a r.0 st) { queue = rest; pages = r.1 })
  ]

  unfoldable pub write_some : ℕ → Store P → Result (Store P)
  unfolding write_first
  write_some zero st = ok st
  write_some (suc n) st = write_first st >>= write_some n

  -- The loop of `writeCache`, and `setStorage` for the cache that it ends with.
  unfoldable pub wait_cache : List ℕ → Store P → Result (Store P)
  unfolding write_some
  wait_cache [] st = err no_fuel
  wait_cache (n ∷ turns) st = do
    st₁ ← write_some n st
    r ← get_cache fuel st₁.pool
    let st₂ = record st₁ { pool = r.1 }
    elim r.0 [
      | none ↦ wait_cache turns st₂
      | some a ↦ ok (put_at a (set_storage (cache_at a st₂)) (record st₂ { current = a }))
    ]

  -- `writeCache`.
  unfoldable pub write_cache : List ℕ → Store P → Result (Store P)
  unfolding wait_cache
  write_cache turns st =
      let c = cache_at st.current st in
      if c.size == 0
      then ok st
      else wait_cache turns
          (record (put_at st.current (sync_begin c) st) { queue = st.queue ++ st.current ∷ [] })

  -- `append(const Meas&)`, with the turns of each of its rounds. The clock says `now` throughout.
  unfoldable pub append_one : List (List ℕ) → ℕ → Meas → Store P → Result (Store P × AppendResult)
  unfolding write_cache
  append_one [] now m st = err no_fuel
  append_one (turns ∷ rounds) now m st =
      let r = append now m st.past_time (cache_at st.current st) in
      let st₁ = put_at st.current r.0 st in
      if r.1.writed == 0 then (write_cache turns st₁ >>= append_one rounds now m) else ok (st₁, r.1)

  -- The loop of `append(PMeas, size_t)`.
  unfoldable pub append_rest :
      List (List ℕ) → ℕ → List Meas → AppendResult → Store P → Result (Store P × AppendResult)
  unfolding write_cache
  append_rest rounds now [] result st = ok (st, result)
  append_rest [] now (m ∷ ms) result st = err no_fuel
  append_rest (turns ∷ rounds) now (m ∷ ms) result st =
      let (c, cur_values, r) =
        append_array now (m ∷ ms) st.past_time (cache_at st.current st) st.cur_values in
      let st₁ = record (put_at st.current c st) { cur_values = cur_values } in
      do
        st₂ ← if not (r.writed == length (m ∷ ms)) then write_cache turns st₁ else ok st₁
        append_rest rounds now (drop r.writed (m ∷ ms)) (result ⊕ r) st₂

  -- `append(PMeas, size_t)`, with the turns of its first `writeCache`.
  unfoldable pub append_all :
      List ℕ → List (List ℕ) → ℕ → List Meas → Store P → Result (Store P × AppendResult)
  unfolding append_rest
  append_all turns rounds now ms st = do
    st₁ ← if is_full (cache_at st.current st) then write_cache turns st else ok st
    append_rest rounds now ms no_append st₁

  -- The loop of `flush_and_stop`. Before each look at the queue the thread has written `n` caches
  -- more, and `popped` says whether it has taken the next one already. So the loop may end while
  -- the last cache is being written, which then still stands in `queue`.
  unfoldable pub drain : List (ℕ × Bool) → Store P → Result (Store P)
  unfolding write_some
  drain [] st = err no_fuel
  drain ((n, popped) ∷ polls) st = do
    st₁ ← write_some n st
    elim (is_writer_busy popped st₁.queue) [ true ↦ drain polls st₁ | false ↦ ok st₁ ]

  -- `flush_and_stop`.
  unfoldable pub flush_and_stop : List ℕ → List (ℕ × Bool) → Store P → Result (Store P)
  unfolding write_cache drain
  flush_and_stop turns polls st = write_cache turns st >>= drain polls

  -- `pause_work` of `m_cache_writer`, which waits for the lock. The thread has it until it waits for
  -- more with nothing left to write.
  unfoldable pub pause_work : Store P → Result (Store P)
  unfolding write_some
  pause_work st = write_some (length st.queue) st

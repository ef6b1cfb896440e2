-- ===== src/Storage/Writes/Pages.antt =====
-- The writer that the storage of libnkvdb/storage.cpp has: `AsyncWriter::call`, on the pages of the page
-- manager.
mod Tests
use nkvdb.Prelude.{
  ℕ, suc, ◌+◌, ◌≤◌, ◌<◌, ◌≡◌, refl, sym, ap, ◌∙◌, Bool, true, List, [], ◌∷◌, ◌++◌, not, arith, ◌==◌,
  ◌&&◌, leb, length, length-append, length-drop, drop, take, All,
}
use mathlib.Core.Path.{subst}
use nkvdb.Prelude.Result.{ok}
use nkvdb.Meas.{Meas, AppendResult}
use nkvdb.Cache.{Cache, clear, sync_complete}
use nkvdb.Cache.Content.{contents, IsValid, young, stale, length-contents}
use nkvdb.Page.Layout.Fill.{HasSize}
use nkvdb.Manager.{Manager, PageName}
use nkvdb.Writer.{Limits, call_writer}
use nkvdb.Writer.Holds
use nkvdb.Writer.Holds.{Holds}
use nkvdb.Writer.Calls.{call_writer-cache, call_writer-contents}
use nkvdb.Storage.Writes.{Store, append_all}
use nkvdb.Storage.Writes.Keeping.{tally, tally-append, IsWriter, IsStore, total}
use nkvdb.Storage.Writes.Balance.{AllFit}
use nkvdb.Storage.Writes.Arrays.{append_all-Appended}

-- The pages show these measurements.
abbrev pub StoredIn : ℕ → Manager → List Meas → Type 0
StoredIn s m ms =
    (closed : List (PageName × List Meas)) × (last : List Meas) × Holds s m closed last
    × (nkvdb.Writer.Holds.contents closed last ≡ ms)

abbrev pub has_size : ℕ → Meas → Bool
has_size s m = m.size == s && leb m.size (length m.value)

All-HasSize : (s : ℕ) (ms : List Meas) → tally (λ m. not (has_size s m)) ms ≡ 0 → All (HasSize s) ms
All-HasSize s [] h = tt
All-HasSize s (m ∷ ms) h = ground (arith, h, All-HasSize s ms)

tally_all : (ms : List Meas) → tally (λ m. true) ms ≡ length ms
tally_all [] = refl
tally_all (m ∷ ms) = ap suc (tally_all ms)

-- `sort` gives what it was given, in another order.
abbrev pub IsSort : (List Meas → List Meas) → Type 0
IsSort sort = (ms : List Meas) (f : Meas → Bool) → tally f (sort ms) ≡ tally f ms

module _ (s : ℕ) (lim : Limits) (small : s ≤ 8) (sort : List Meas → List Meas)
    (is_sort : IsSort sort) where
  length-sort : (ms : List Meas) → length (sort ms) ≡ length ms
  length-sort ms = sym (tally_all (sort ms)) ∙ is_sort ms (λ m. true) ∙ tally_all ms

  pub call_writer-IsWriter :
      (rounds limit : ℕ)
      → limit < rounds
      → IsWriter (call_writer sort rounds lim) (StoredIn s) (has_size s) limit
  unfolding clear sync_complete
  call_writer-IsWriter rounds limit lt c c' m m' kept fine (closed, last, holds, same) e =
      let used = take c.size c.meases in
      let same_used : used ≡ contents c = ap (λ n. take n c.meases) fine.valid.counted in
      let long : length (sort used) ≡ c.size =
        length-sort used ∙ ap length same_used ∙ length-contents c fine.valid in
      let sized = All-HasSize s (sort used) (
        is_sort used (λ m. not (has_size s m))
        ∙ ap (tally (λ m. not (has_size s m))) same_used
        ∙ fine.fitting) in
      let (empty_size, empty_index, unmarked, closed', last', holds', added) =
        call_writer-contents s lim sort rounds c c' m m' closed last small sized holds
          (omega (arith, long, fine.at_most, fine.valid.fits)) e in
      let cleared =
        sync_complete (clear (record c { meases = sort used ++ drop c.size c.meases })) in
      let cache : cleared ≡ c' = call_writer-cache sort rounds lim c c' m m' e in
      let valid : IsValid cleared = record {
        array = omega (
          arith,
          length-append (sort used) (drop c.size c.meases),
          long,
          length-drop c.size c.meases,
          fine.valid.array,
          fine.valid.fits,
        );
        counted = refl;
        fits = omega arith;
        small = fine.valid.small;
      } in
      record {
        valid = subst IsValid cache valid;
        same_size = ap (λ (x : Cache). x.max_size) (sym cache);
        emptied = ap contents (sym cache);
        free = unmarked;
        kept' = kept ++ sort used;
        stored' = (closed', last', holds', added ∙ ap (λ ms. ms ++ sort used) same);
        balance = λ f.
            tally-append f kept (sort used)
            ∙ ap (λ n. tally f kept + n) (is_sort used f ∙ ap (tally f) same_used);
      }

  -- An append of an array to a storage, with the writer that it has. If it returns, the measurements
  -- that the pages show, and those in the caches of the queue and in the current one, are what they
  -- were and the young ones of the array, each once; it says that all were written and how many
  -- were too old. The values have `s` bytes, at most eight, the size of the pool does not change,
  -- and the writer's loop may take more rounds than a cache has room.
  pub append_all-StoredIn :
      (rounds limit fuel : ℕ) (turns : List ℕ) (waits : List (List ℕ)) (now : ℕ)
      (ms kept : List Meas) (st st' : Store Manager) (r : AppendResult)
      → limit < rounds
      → IsStore (StoredIn s) (has_size s) limit kept st
      → AllFit (has_size s) now st.past_time ms
      → append_all (call_writer sort rounds lim) fuel turns waits now ms st ≡ ok (st', r)
      → (kept' : List Meas) × IsStore (StoredIn s) (has_size s) limit kept' st'
        × ((f : Meas → Bool)
            → total f kept' st' ≡ total f kept st + tally f (young now st.past_time ms))
        × (r.writed ≡ length ms)
        × (r.ignored ≡ stale now st.past_time ms)
  append_all-StoredIn rounds limit fuel turns waits now ms kept st st' r lt h fit e =
      let (a, writed, ignored) =
        append_all-Appended (call_writer-IsWriter rounds limit lt) fuel turns waits now ms kept st
          st' r h fit e in
      (a.kept', a.store, a.balance, writed, ignored)

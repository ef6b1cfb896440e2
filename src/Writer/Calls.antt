-- ===== src/Writer/Calls.antt =====
-- A whole call of the writer of libnkvdb/storage.cpp.
use nkvdb.Prelude.{
  ℕ, ◌≤◌, ◌<◌, ◌≡◌, refl, sym, ap, ◌∙◌, false, List, [], ◌∷◌, ◌++◌, some, arith, length, take, drop,
  All,
}
use nkvdb.Prelude.Result.{Result, ok, err, >>=-eq-ok, ok-injective, no_fuel, ◌>>=◌}
use nkvdb.Meas.{Meas}
use nkvdb.Index.{flush, Index}
use mathlib.Core.Path.{subst}
use nkvdb.Page.{Page, flush_write_window, read}
use nkvdb.Page.Layout.{IsSound}
use nkvdb.Page.Layout.Fill.{HasSize, FitsSize}
use nkvdb.Cache.{Cache, clear, sync_complete}
use nkvdb.Manager.{Manager, PageName}
use nkvdb.Writer.{Limits, write_loop, flush_current, call_writer}
use nkvdb.Writer.View.{Shows}
use nkvdb.Writer.Holds.{Holds, contents}
use nkvdb.Writer.Pages.{write_loop-contents}

-- A page whose window and index were flushed shows what it showed.
module _ (ix : Index) (p : Page) where
  abbrev flushed : Page
  unfolding flush_write_window
  flushed = record (flush_write_window p) { index = ix }

  flushed-Shows : (ms : List Meas) → Shows p ms → Shows flushed ms
  unfolding flush_write_window read flushed
  flushed-Shows ms h = record { count = h.count; reads = h.reads }

  flushed-IsSound : IsSound p → IsSound flushed
  unfolding flush_write_window flushed
  flushed-IsSound h = record {
    apart = h.apart;
    inside = h.inside;
    small = h.small;
    behind = h.behind;
    stacked = h.stacked;
  }

  flushed-FitsSize : (s : ℕ) → FitsSize s p → FitsSize s flushed
  unfolding flush_write_window flushed
  flushed-FitsSize s h = h

-- The cache that a call leaves.
pub call_writer-cache :
    (sort : List Meas → List Meas) (rounds : ℕ) (lim : Limits) (c c' : Cache) (m m' : Manager)
    → call_writer sort rounds lim c m ≡ ok (c', m')
    → sync_complete
        (clear (record c { meases = sort (take c.size c.meases) ++ drop c.size c.meases }))
      ≡ c'
unfolding call_writer
call_writer-cache sort rounds lim c c' m m' e =
    let cleared =
      sync_complete
        (clear (record c { meases = sort (take c.size c.meases) ++ drop c.size c.meases })) in
    let last : Manager × List Meas → Result Manager =
      λ r. elim r.1 [ [] ↦ flush_current lim r.0 | x ∷ xs ↦ err no_fuel ] in
    let next : Manager × List Meas → Result (Cache × Manager) =
      λ r. last r >>= λ m₂. ok (cleared, m₂) in
    let (r, _, e₂) =
      >>=-eq-ok (write_loop rounds lim (sort (take c.size c.meases)) m) next {y = (c', m')} e in
    let (m₂, _, e₄) = >>=-eq-ok (last r) (λ m₂. ok (cleared, m₂)) {y = (c', m')} e₂ in
    ap (λ (x : Cache × Manager). x.0) (ok-injective (cleared, m₂) (c', m') e₄)

module _ (s : ℕ) (lim : Limits) where
  flush_current-Holds :
      (m m' : Manager) (closed : List (PageName × List Meas)) (ms : List Meas)
      → Holds s m closed ms
      → flush_current lim m ≡ ok m'
      → Holds s m' closed ms
  unfolding flush_current flushed
  flush_current-Holds m m' closed ms h e =
      let next : Index → Result Manager =
        λ ix. ok (record m { cur_page = some (h.name, flushed ix h.page) }) in
      let (ix, _, e₂) =
        >>=-eq-ok (flush lim.tree h.page.index) next {y = m'} (ground (arith, e, h.current)) in
      subst (λ x. Holds s x closed ms)
        (ok-injective (record m { cur_page = some (h.name, flushed ix h.page) }) m' e₂)
        (record {
          name = h.name;
          page = flushed ix h.page;
          current = refl;
          shows = flushed-Shows ix h.page ms h.shows;
          sound = flushed-IsSound ix h.page h.sound;
          fits = flushed-FitsSize ix h.page s h.fits;
          archive = h.archive;
          sized = h.sized;
        })

  -- A call of the writer that returns leaves the cache empty and no longer marked as being
  -- written, and its measurements, sorted, at the end of what the pages show. The values of the
  -- measurements have `s` bytes, `s` at most eight, the pages are as Holds describes them, and the
  -- rounds are more than the measurements.
  pub call_writer-contents :
      (sort : List Meas → List Meas) (rounds : ℕ) (c c' : Cache) (m m' : Manager)
      (closed : List (PageName × List Meas)) (ms : List Meas)
      → s ≤ 8
      → All (HasSize s) (sort (take c.size c.meases))
      → Holds s m closed ms
      → length (sort (take c.size c.meases)) < rounds
      → call_writer sort rounds lim c m ≡ ok (c', m')
      → (c'.size ≡ 0)
        × (c'.index ≡ 0)
        × (c'.sync ≡ false)
        × (closed' : List (PageName × List Meas)) × (ms' : List Meas) × Holds s m' closed' ms'
        × (contents closed' ms' ≡ contents closed ms ++ sort (take c.size c.meases))
  unfolding call_writer clear sync_complete
  call_writer-contents sort rounds c c' m m' closed ms small z h lt e =
      let sorted = sort (take c.size c.meases) in
      let cleared : Cache =
        sync_complete (clear (record c { meases = sorted ++ drop c.size c.meases })) in
      let last : Manager × List Meas → Result Manager =
        λ r. elim r.1 [ [] ↦ flush_current lim r.0 | x ∷ xs ↦ err no_fuel ] in
      let next : Manager × List Meas → Result (Cache × Manager) =
        λ r. last r >>= λ m₂. ok (cleared, m₂) in
      let ((m₁, left), e₁, e₂) = >>=-eq-ok (write_loop rounds lim sorted m) next {y = (c', m')} e in
      let (none_left, closed', ms', h', kept) =
        write_loop-contents s lim small rounds sorted left m m₁ closed ms z h lt e₁ in
      let (m₂, e₃, e₄) = >>=-eq-ok (last (m₁, left)) (λ m₂. ok (cleared, m₂)) {y = (c', m')} e₂ in
      let pair : ◌≡◌ {A = Cache × Manager} (cleared, m₂) (c', m') =
        ok-injective (cleared, m₂) (c', m') e₄ in
      let flushes : flush_current lim m₁ ≡ ok m' =
        ap (λ ms. last (m₁, ms)) (sym none_left) ∙ e₃ ∙ ap (λ (x : Cache × Manager). ok x.1) pair in
      (
        ap (λ (x : Cache × Manager). x.0.size) (sym pair),
        ap (λ (x : Cache × Manager). x.0.index) (sym pair),
        ap (λ (x : Cache × Manager). x.0.sync) (sym pair),
        closed',
        ms',
        flush_current-Holds m₁ m' closed' ms' h' flushes,
        kept,
      )

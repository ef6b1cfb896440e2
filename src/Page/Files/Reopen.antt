-- ===== src/Page/Files/Reopen.antt =====
-- A page of libnkvdb/page.cpp that is opened, closed, and opened again.
use nkvdb.Prelude.{
  ℕ, ◌+◌, ◌≡◌, refl, true, false, List, [], ◌∷◌, Option, none, some, arith, length, ◌∙◌, ap, sym,
  ◌==◌,
}
use nkvdb.Prelude.Result.{ok, err, exception, >>=-eq-ok, ok-injective, ◌>>=◌}
use nkvdb.Meas.{Meas}
use nkvdb.WriteWindow.Reload.{IsWindow, reload}
use nkvdb.Index.{Index, flush}
use nkvdb.Page.{Page, page_version, close, flush_write_window, load_write_window}
use nkvdb.Page.Files.{open_page, read_header, opened}

-- What `close` leaves of a mapped page: its window in the file, and a flushed index.
unfoldable pub closed : Index → Page → Page
closed ix p =
    let p' = flush_write_window p in
    record p' {
      index = ix;
      header = record (p'.header) { is_open = false; readers_count = 0 };
      mapped = false;
    }

flush_write_window-index : (p : Page) → (flush_write_window p).index ≡ p.index
unfolding flush_write_window
flush_write_window-index p = refl

-- A mapped page that was closed.
pub close_cases :
    (fuel : ℕ) (p q : Page)
    → close fuel p ≡ ok q
    → p.mapped ≡ true
    → (ix : Index) × (closed ix p ≡ q) × (flush fuel p.index ≡ ok ix)
unfolding close closed
close_cases fuel p q e m =
    let p' = flush_write_window p in
    let step : (flush fuel p'.index >>= λ ix. ok (closed ix p)) ≡ ok q = ground (arith, e, m) in
    let (ix, f, h) = >>=-eq-ok (flush fuel p'.index) (λ ix. ok (closed ix p)) {y = q} step in
    (ix, ok-injective (closed ix p) q h, ap (flush fuel) (sym (flush_write_window-index p)) ∙ f)

open_closed :
    (ix : Index) (p : Page)
    → p.header.version ≡ page_version
    → open_page false (some (closed ix p)) ≡ ok (opened false (closed ix p))
unfolding open_page read_header closed flush_write_window
open_closed ix p v = ground (arith, v)

some_slot : (ww : List Meas) → IsWindow 0 ww → (length ww == 0) ≡ false
some_slot [] h = absurd h
some_slot (m ∷ ms) h = ground arith

window_file-closed :
    (ix : Index) (p : Page) → IsWindow 0 p.window → (closed ix p).window_file ≡ some p.window
unfolding closed flush_write_window
window_file-closed ix p w = ground (arith, some_slot p.window w)

-- The window is read back from its file.
window-reloaded :
    (ix : Index) (p : Page)
    → IsWindow 0 p.window
    → load_write_window (closed ix p).window_file [] ≡ p.window
unfolding load_write_window
window-reloaded ix p w =
    ap (λ file. load_write_window file []) (window_file-closed ix p w) ∙ reload p.window w

-- A page with a write window that was closed opens again for writing: its records, its values' bytes
-- and its window are those that it was closed with, its header too but for the marks of being
-- open, of its readers and of the window's size, and no index record waits to be written.
pub close-open_page :
    (fuel : ℕ) (p q : Page)
    → close fuel p ≡ ok q
    → p.mapped ≡ true
    → p.header.version ≡ page_version
    → IsWindow 0 p.window
    → (r : Page) × (open_page false (some q) ≡ ok r)
      × (r.records ≡ p.records)
      × (r.bytes ≡ p.bytes)
      × (r.window ≡ p.window)
      × (r.header ≡ record (p.header) {
        is_open = true;
        readers_count = 0;
        write_window_size = length p.window;
      })
      × (r.index.pending ≡ [])
unfolding opened closed flush_write_window
close-open_page fuel p q e m v w =
    let (ix, same, _) = close_cases fuel p q e m in
    (
      opened false (closed ix p),
      ap (λ x. open_page false (some x)) (sym same) ∙ open_closed ix p v,
      refl,
      refl,
      window-reloaded ix p w,
      refl,
      refl,
    )

-- A page that was opened for writing cannot be opened for writing once more; it can be for reading,
-- which counts one more reader.
pub open_page_excludes :
    (file : Option Page) (p : Page)
    → open_page false file ≡ ok p
    → (open_page false (some p) ≡ err exception)
      × ((r : Page) × (open_page true (some p) ≡ ok r)
          × (r.header.readers_count ≡ p.header.readers_count + 1)
          × (r.header.is_open ≡ true))
unfolding open_page read_header opened
open_page_excludes none p e = cc e
open_page_excludes (some x) p e =
    (ground (arith, e), (opened true p, ground (arith, e), refl, refl))

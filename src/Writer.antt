-- ===== src/Writer.antt =====
-- class AsyncWriter of libnkvdb/storage.cpp: a full cache is written to pages. A cache has an
-- array of measurements, of which `call` sorts those in use in place.
pub mod View
pub mod Holds
pub mod Rounds
pub mod Pages
pub mod Calls
mod Tests
use nkvdb.Prelude.{
  ℕ, zero, suc, ◌+◌, ◌-◌, Bool, true, false, List, [], ◌∷◌, ◌++◌, not, Option, none, some, ◌==◌,
  if◌then◌else◌, length, drop, take,
}
use nkvdb.Prelude.Result.{Result, ok, err, undefined, no_fuel, ◌>>=◌}
use nkvdb.Meas.{Meas, AppendResult}
use nkvdb.Index.{flush}
use nkvdb.Page.{Page, flush_write_window}
use nkvdb.Page.Append.{append_array}
use nkvdb.Cache.{Cache, clear, sync_complete}
use nkvdb.Manager.{Manager, PageName, create_new_page}

-- The bounds of the loops below, and the clock: rounds of the search for a name, fuel of the index,
-- and what the clock says.
pub record Limits : Type 0 where
  pub names : ℕ
  pub tree : ℕ
  pub now : ℕ

-- One round: an append to the current page, and a new page if it did not take all. A null page is
-- undefined.
unfoldable pub write_round : Limits → List Meas → Manager → Result (Manager × ℕ)
write_round lim ms m = elim m.cur_page [
  | none ↦ err undefined
  | some cur ↦ do
    r ← append_array lim.tree ms cur.1
    let m₁ = record m { cur_page = some (cur.0, r.0) }
    m₂ ←
        if not (r.1.writed == length ms)
        then create_new_page lim.names lim.tree lim.now m₁
        else ok m₁
    ok (m₂, r.1.writed)
]

-- The loop, with the measurements still to be written; it gives those that are left when `rounds`
-- are over.
unfoldable pub write_loop : ℕ → Limits → List Meas → Manager → Result (Manager × List Meas)
unfolding write_round
write_loop rounds lim [] m = ok (m, [])
write_loop zero lim (x ∷ ms) m = ok (m, x ∷ ms)
write_loop (suc rounds) lim (x ∷ ms) m = do
  r ← write_round lim (x ∷ ms) m
  write_loop rounds lim (drop r.1 (x ∷ ms)) r.0

-- `flushWriteWindow` and `flushIndex` of the current page.
unfoldable pub flush_current : Limits → Manager → Result Manager
unfolding flush_write_window
flush_current lim m = elim m.cur_page [
  | none ↦ err undefined
  | some cur ↦ do
    ix ← flush lim.tree cur.1.index
    ok (record m { cur_page = some (cur.0, record (flush_write_window cur.1) { index = ix }) })
]

-- `call`; `sort` is `std::sort` by time.
unfoldable pub call_writer :
    (List Meas → List Meas) → ℕ → Limits → Cache → Manager → Result (Cache × Manager)
unfolding write_loop flush_current
call_writer sort rounds lim c m = do
  let sorted = sort (take c.size c.meases)
  r ← write_loop rounds lim sorted m
  m' ← elim r.1 [ [] ↦ flush_current lim r.0 | x ∷ xs ↦ err no_fuel ]
  ok (sync_complete (clear (record c { meases = sorted ++ drop c.size c.meases })), m')

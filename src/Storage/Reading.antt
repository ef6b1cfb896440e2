-- ===== src/Storage/Reading.antt =====
-- class StorageReader of include/storage.h and libnkvdb/storage.cpp: it goes through the readers of
-- several pages. The marks that opening a page for reading sets in its header do not bear on
-- what is read, and are left out here.
pub mod Answers
mod Tests
use nkvdb.Prelude.{
  ℕ, zero, suc, ◌+◌, Bool, true, false, List, [], ◌∷◌, ◌++◌, not, Option, none, some, ◌==◌,
  if◌then◌else◌,
}
use nkvdb.Prelude.Result.{Result, ok, err, undefined, no_fuel, ◌>>=◌}
use nkvdb.Meas.{Meas}
use nkvdb.WriteWindow.{WriteWindow}
use nkvdb.Page.{Page}
use nkvdb.Page.Files.{open_page}
use nkvdb.Query.{Selection}
use nkvdb.Query.Readers
use nkvdb.Query.Readers.{
  IntervalReader, TimePointReader, read_interval, read_in_time_point, read_next_point,
}
use nkvdb.Manager.{Manager, PageName, file_of}

-- `Reader_ptr` of a page.
pub data PageReader : Type 0 where
  interval : IntervalReader → PageReader
  point : TimePointReader → PageReader

-- `prev_page` is none where the source has an empty name.
pub record StorageReader : Type 0 where
  pub sel : Selection
  pub from : ℕ
  pub to : ℕ
  pub time_point : ℕ
  pub prev_page : Option PageName
  pub pages : List PageName
  pub current : Option PageReader

abbrev pub page_is_end : PageReader → Bool
page_is_end (interval r) = nkvdb.Query.Readers.is_end r
page_is_end (point r) = r.window_read_end

abbrev pub page_read_next : ℕ → ℕ → PageReader → Result (PageReader × List Meas)
page_read_next fuel size (interval r) =
    nkvdb.Query.Readers.read_next fuel size r >>= λ o. ok (interval o.0, o.1)
page_read_next fuel size (point r) = read_next_point fuel r >>= λ o. ok (point o.0, o.1)

unfoldable pub is_end : StorageReader → Bool
is_end r = elim r.pages [
  | [] ↦ elim r.current [ none ↦ true | some c ↦ page_is_end c ]
  | x ∷ xs ↦ false
]

unfoldable pub add_page : PageName → StorageReader → StorageReader
add_page name r = record r { pages = r.pages ++ name ∷ [] }

-- The write window of the page before.
unfoldable pub prev_window : Option PageName → Manager → Result WriteWindow
unfolding file_of open_page
prev_window none m = ok []
prev_window (some name) m = open_page true (file_of name m) >>= λ p. ok p.window

-- The reader of one page. The source writes to the reader that it got; for a page with no
-- measurements that is a null pointer.
unfoldable pub open_reader : ℕ → Manager → StorageReader → PageName → Result PageReader
unfolding file_of open_page prev_window read_interval read_in_time_point
open_reader fuel m r name = do
  p ← open_page true (file_of name m)
  prev_ww ← prev_window r.prev_page m
  let by_interval = read_interval fuel r.sel r.from r.to p >>= λ o. elim o [
    | none ↦ err undefined
    | some c ↦ ok (interval (record c { prev_ww = prev_ww }))
  ]
  if not (r.time_point == 0)
      then elim (read_in_time_point r.sel r.time_point p) [
        | none ↦ err undefined
        | some c ↦ ok (point (record c { prev_ww = prev_ww }))
      ]
      else by_interval

-- The first part of `readNext`: the reader of the next page, if there is none. `front` of an empty
-- list is undefined.
unfoldable pub next_reader : ℕ → Manager → StorageReader → Result (StorageReader × PageReader)
unfolding open_reader
next_reader fuel m r = elim r.current [
  | some c ↦ ok (r, c)
  | none ↦ elim r.pages [
    | [] ↦ err undefined
    | name ∷ rest ↦ open_reader fuel m r name >>= λ c. ok (record r { pages = rest }, c)
  ]
]

-- `readNext`.
unfoldable pub read_next : ℕ → ℕ → Manager → StorageReader → Result (StorageReader × List Meas)
unfolding is_end next_reader
read_next fuel size m r =
    let more = do
      s ← next_reader fuel m r
      o ← page_read_next fuel size s.1
      ok (record (s.0) { current = (if page_is_end o.0 then none else some o.0) }, o.1)
    in if is_end r then ok (r, []) else more

module _ {R : Type 0} (end : R → Bool) (next : R → Result (R × List Meas)) where
  -- `Reader::readAll`, for any reader.
  unfoldable pub read_all : ℕ → R → Result (R × List Meas)
  read_all zero r = if end r then ok (r, []) else err no_fuel
  read_all (suc rounds) r =
      let more = do s ← next r; t ← read_all rounds s.0; ok (t.0, s.1 ++ t.1)
      in if end r then ok (r, []) else more

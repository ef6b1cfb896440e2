-- ===== src/Storage/Queries.antt =====
-- The queries of class Storage, libnkvdb/storage.cpp, that make a reader, and loadCurValues. The
-- queries flush, choose pages by their headers, from the one that ends first on, and leave a
-- StorageReader that has opened none of them. Marks that opening a page for reading sets in its
-- header are left out, as for the readers.
mod Tests
use nkvdb.Prelude.{
  ℕ, Bool, true, false, List, [], ◌∷◌, not, Option, none, some, ltb, ◌==◌, if◌then◌else◌,
}
use mathlib.Core.List.{reverse}
use nkvdb.Prelude.Result.{Result, ok, ◌>>=◌}
use nkvdb.Meas.{Meas}
use nkvdb.Cache.{Cache}
use nkvdb.Cache.Current.{write_all}
use nkvdb.Index.{IndexQuery}
use nkvdb.Page.Files.{open_page}
use nkvdb.Query.{contains}
use nkvdb.Manager.{Manager, PageName, file_of, pages_by_time}
use nkvdb.Storage.{PageInfo, some_id, choose_interval, choose_point}
use nkvdb.Storage.Reading.{StorageReader}
use nkvdb.Storage.Writes.{Store, flush_and_stop, pause_work}
use nkvdb.Storage.Times.{front}

-- An `IdSet` of ids: in their order, each once.
abbrev pub add_id : ℕ → List ℕ → List ℕ
add_id id [] = id ∷ []
add_id id (x ∷ xs) =
    let rest = add_id id xs in
    if ltb id x then id ∷ x ∷ xs else if id == x then x ∷ xs else x ∷ rest

abbrev pub id_set : List ℕ → List ℕ
id_set [] = []
id_set (id ∷ ids) = add_id id (id_set ids)

-- `id_set.erase` of the ids of a write window.
unfoldable pub erase_all : List Meas → List ℕ → List ℕ
erase_all ww [] = []
erase_all ww (id ∷ ids) = let rest = erase_all ww ids in if has_id ww then rest else id ∷ rest
  where
    has_id : List Meas → Bool
    has_id [] = false
    has_id (m ∷ ms) = if m.id == id then true else has_id ms

-- The pages whose filter has one of the ids.
unfoldable pub with_ids : List ℕ → List (PageInfo PageName) → List (PageInfo PageName)
unfolding some_id
with_ids ids [] = []
with_ids ids (p ∷ ps) =
    let rest = with_ids ids ps in if some_id ids p.header.id_fltr then p ∷ rest else rest

-- `loadCurValues`: the ids that were not found. `sort` is that of `pagesByTime`, and `dir` what the
-- directory lists.
unfoldable pub load_cur_values :
    (List (PageInfo PageName) → List (PageInfo PageName))
    → List PageName
    → List ℕ
    → Store Manager
    → Result (Store Manager × List ℕ)
unfolding pages_by_time with_ids file_of open_page write_all erase_all
load_cur_values sort dir ids st = do
  pages ← pages_by_time sort dir st.pages
  first ← front (with_ids ids pages)
  page ← open_page true (file_of first.name st.pages)
  ok (
    record st { cur_values = write_all page.window st.cur_values },
    erase_all page.window (id_set ids),
  )

module _ (write : Cache → Manager → Result (Cache × Manager)) (fuel : ℕ)
    (sort : List (PageInfo PageName) → List (PageInfo PageName)) (dir : List PageName) where
  -- `readInterval`.
  unfoldable pub query_interval :
      IndexQuery → List ℕ → List (ℕ × Bool) → Store Manager → Result (Store Manager × StorageReader)
  unfolding flush_and_stop pause_work pages_by_time choose_interval
  query_interval q turns polls st = do
    st₁ ← flush_and_stop write fuel turns polls st
    st' ← pause_work write fuel st₁
    pages ← pages_by_time sort dir st'.pages
    let chosen = choose_interval q (reverse pages)
    ok (
      st',
      record {
        sel = record { ids = q.ids; source = q.source; flag = q.flag };
        from = q.from;
        to = q.to;
        time_point = 0;
        prev_page = chosen.prev_page;
        pages = chosen.to_read;
        current = none;
      },
    )

  -- `readInTimePoint`, for the moment `q.from`; the reader's `from` and `to` are never set, and
  -- `unset` is what they hold.
  unfoldable pub query_point :
      IndexQuery
      → ℕ × ℕ
      → List ℕ
      → List (ℕ × Bool)
      → Store Manager
      → Result (Store Manager × StorageReader)
  unfolding flush_and_stop pause_work pages_by_time choose_point
  query_point q unset turns polls st = do
    st₁ ← flush_and_stop write fuel turns polls st
    st' ← pause_work write fuel st₁
    pages ← pages_by_time sort dir st'.pages
    let chosen = choose_point q (reverse pages)
    ok (
      st',
      record {
        sel = record { ids = q.ids; source = q.source; flag = q.flag };
        from = unset.0;
        to = unset.1;
        time_point = q.from;
        prev_page = chosen.prev_page;
        pages = chosen.to_read;
        current = none;
      },
    )

-- ===== src/Storage/Times.antt =====
-- Queries of class Storage, libnkvdb/storage.cpp, that flush and look at the pages' headers or at the
-- current values. `m_write_mutex` keeps them apart from appends.
pub mod Latest
use nkvdb.Prelude.{ℕ, Bool, true, false, List, [], ◌∷◌, not, Option, none, some, if◌then◌else◌}
use nkvdb.Prelude.Result.{Result, ok, err, undefined, ◌>>=◌}
use nkvdb.Meas.{Meas}
use nkvdb.Page
use nkvdb.Cache.{Cache}
use nkvdb.Cache.Current.{read_value}
use nkvdb.Manager.{Manager, PageName, pages_by_time}
use nkvdb.Storage.{PageInfo}
use nkvdb.Storage.Writes.{Store, flush_and_stop, pause_work}

-- `front` and `back` of a vector, undefined for an empty one.
abbrev pub front : List (PageInfo PageName) → Result (PageInfo PageName)
front [] = err undefined
front (p ∷ ps) = ok p

abbrev pub last_from : PageInfo PageName → List (PageInfo PageName) → PageInfo PageName
last_from p [] = p
last_from p (q ∷ ps) = last_from q ps

abbrev pub back : List (PageInfo PageName) → Result (PageInfo PageName)
back [] = err undefined
back (p ∷ ps) = ok (last_from p ps)

-- `havePage2Write`.
unfoldable pub have_page_to_write : Manager → Bool
have_page_to_write m = elim m.cur_page [ none ↦ false | some cur ↦ not (nkvdb.Page.is_full cur.1) ]

module _ (write : Cache → Manager → Result (Cache × Manager)) (fuel : ℕ)
    (sort : List (PageInfo PageName) → List (PageInfo PageName)) (dir : List PageName) where
  -- `minTime` and `maxTime`; `sort` is that of `pagesByTime`, and `dir` what the directory lists.
  unfoldable pub min_time : List ℕ → List (ℕ × Bool) → Store Manager → Result (Store Manager × ℕ)
  unfolding flush_and_stop pause_work pages_by_time
  min_time turns polls st = do
    st₁ ← flush_and_stop write fuel turns polls st
    st' ← pause_work write fuel st₁
    pages ← pages_by_time sort dir st'.pages
    p ← back pages
    ok (st', p.header.min_time)

  unfoldable pub max_time : List ℕ → List (ℕ × Bool) → Store Manager → Result (Store Manager × ℕ)
  unfolding flush_and_stop pause_work pages_by_time
  max_time turns polls st = do
    st₁ ← flush_and_stop write fuel turns polls st
    st' ← pause_work write fuel st₁
    pages ← pages_by_time sort dir st'.pages
    p ← front pages
    ok (st', p.header.max_time)

  -- `curValues`.
  unfoldable pub cur_values :
      List ℕ → List ℕ → List (ℕ × Bool) → Store Manager → Result (Store Manager × List Meas)
  unfolding flush_and_stop read_value
  cur_values ids turns polls st = do
    st' ← flush_and_stop write fuel turns polls st
    ok (st', read_value ids st'.cur_values)

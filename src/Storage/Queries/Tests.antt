-- ===== src/Storage/Queries/Tests.antt =====
-- A run of class Storage, libnkvdb/storage.cpp: measurements are appended, and read by an interval.
use nkvdb.Prelude.{false, true, ℕ, ◌≡◌, refl, List, [], ◌∷◌, map, some, none}
use nkvdb.Prelude.Result.{Result, ok, ◌>>=◌}
use nkvdb.Meas.{check_past_time}
use nkvdb.Cache.{
  Cache, clear, sync_complete, sync_begin, append, append_array, make_cache, is_full, set_storage,
  store_all,
}
use nkvdb.CachePool.{make_pool, get_cache, init_pool, add_caches, free_cache}
use nkvdb.Index.{make_index}
use nkvdb.Page.{init_header}
use nkvdb.Page.Append
use nkvdb.BTree.{insert, init_cache}
use nkvdb.BTree.Nodes
use nkvdb.Manager.{Manager, PageName}
use nkvdb.Writer.{call_writer}
use nkvdb.Page.Files.{create}
use nkvdb.Storage.Writes.{Store, append_all, new_store, flush_and_stop, pause_work}
use nkvdb.Storage.Writes.Runs.{three, first}
use nkvdb.Storage.Queries.{query_interval, load_cur_values}
use nkvdb.Index.{IndexQuery}
use nkvdb.Cache.Current.{read_value}
use nkvdb.Query
use nkvdb.Query.Readers
use nkvdb.Storage.Reading

abbrev name : PageName
name = record { time = 1; suffix = 0 }

abbrev manager : Manager
manager = record {
  cur_page = some (name, record (create 64000224 none) { window = [] });
  files = λ x. none;
  page_list = name ∷ [];
  default_page_size = 64000224;
}

abbrev by_writer : Cache → Manager → Result (Cache × Manager)
by_writer = call_writer (λ ms. ms) 3 (record { names = 3; tree = 3; now = 7 })

abbrev stored : Result (Store Manager)
stored =
    append_all by_writer 3 [] ((1 ∷ []) ∷ (1 ∷ []) ∷ []) 9 three (first manager) >>= λ s. ok s.0

abbrev q : IndexQuery
q = record { ids = []; source = 0; flag = 0; from = 6; to = 100 }

interval_answer : Result (List ℕ)
interval_answer = do
  st ← stored
  o ← query_interval by_writer 3 (λ ps. ps) [] q (1 ∷ 1 ∷ []) ((1, false) ∷ (1, true) ∷ []) st
  r ← Reading.read_all Reading.is_end (Reading.read_next 20 10 o.0.pages) 6 o.1
  ok (map (λ m. m.time) r.1)

append_then_query : interval_answer ≡ ok (5 ∷ 6 ∷ 7 ∷ [])
unfolding interval_answer append_all new_store make_pool init_pool add_caches get_cache free_cache
    append_array is_full make_cache set_storage store_all nkvdb.Cache.store_one check_past_time
    clear sync_complete sync_begin call_writer Append.append_array nkvdb.Page.is_full create
    init_header nkvdb.Index.write_index_rec make_index nkvdb.Index.flush insert init_cache
    Nodes.lower_bound Nodes.is_full nkvdb.Page.update_min_max Nodes.insert_value
    Query.Readers.read_next nkvdb.Page.read nkvdb.Page.load Query.Readers.passes
    Query.check_value_flags Reading.read_all Reading.read_next Reading.is_end query_interval
    nkvdb.Index.find_in_index nkvdb.BTree.find_node Query.time_point_read
append_then_query = refl

loaded : Result (List ℕ × List ℕ)
loaded = do
  st ← stored
  st₁ ← flush_and_stop by_writer 3 (1 ∷ 1 ∷ []) ((1, false) ∷ (1, true) ∷ []) st
  st' ← pause_work by_writer 3 st₁
  o ← load_cur_values (λ ps. ps) [] (2 ∷ 9 ∷ 1 ∷ 9 ∷ []) st'
  ok (map (λ m. m.time) (read_value (1 ∷ 2 ∷ []) o.0.cur_values), o.1)

-- The window has the two ids, so that 9 is left.
load_after_append : loaded ≡ ok (7 ∷ 6 ∷ [], 9 ∷ [])
unfolding loaded append_all new_store make_pool init_pool add_caches get_cache free_cache
    append_array is_full make_cache set_storage store_all nkvdb.Cache.store_one check_past_time
    clear sync_complete sync_begin call_writer Append.append_array nkvdb.Page.is_full create
    init_header nkvdb.Index.write_index_rec make_index nkvdb.Index.flush insert init_cache
    Nodes.lower_bound Nodes.is_full Nodes.insert_value nkvdb.Page.update_min_max flush_and_stop
    pause_work load_cur_values read_value nkvdb.Bloom.bloom_check nkvdb.Bloom.bloom_add
    nkvdb.WriteWindow.update nkvdb.WriteWindow.update_all nkvdb.Cache.Current.write_value
load_after_append = refl

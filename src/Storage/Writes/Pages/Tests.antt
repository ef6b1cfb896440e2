-- ===== src/Storage/Writes/Pages/Tests.antt =====
-- A run of an append of libnkvdb/storage.cpp that goes to the pages of a manager, and an instance of the
-- theorem about it.
use nkvdb.Prelude.{
  ℕ, length, true, false, inr, ◌≤◌, inl, ◌⊎◌, ◌+◌, ◌≡◌, refl, Bool, List, [], ◌∷◌, arith, some,
  none,
}
use nkvdb.Prelude.Result.{Result, Fault, ok, err, ◌>>=◌}
use nkvdb.Meas.{Meas, AppendResult, check_past_time}
use nkvdb.Index.{make_index}
use nkvdb.Page.{Page, init_header}
use nkvdb.Cache.{
  Cache, clear, sync_complete, sync_begin, append, append_array, make_cache, is_full, set_storage,
  store_all,
}
use nkvdb.Cache.Content.{young, stale}
use nkvdb.CachePool.{make_pool, get_cache, init_pool, add_caches, free_cache}
use nkvdb.Manager.{Manager, PageName}
use nkvdb.Writer.{Limits, call_writer}
use nkvdb.Writer.View.{IsPageSize, create-IsNew}
use nkvdb.Page.Files.{create}
use nkvdb.BTree.{insert, init_cache}
use nkvdb.BTree.Nodes
use nkvdb.Page.Append
use nkvdb.Storage.Writes.{Store, new_store, append_all, flush_and_stop, pause_work}
use nkvdb.Storage.Writes.Flush.{Flushed, HasLook, flush_and_stop-Flushed}
use nkvdb.Storage.Writes.Keeping.{IsPooled, tally, IsStore, total}
use nkvdb.Storage.Writes.Pages.{StoredIn, has_size, append_all-StoredIn, call_writer-IsWriter}
use nkvdb.Storage.Writes.Balance.{Appended, AllFit}
use nkvdb.Storage.Writes.Ends.{Failed}
use nkvdb.Storage.Writes.Returns.{append_all-returns}
use nkvdb.Storage.Writes.Runs.{three, store_of, first, first-IsStore, after, result_of}

abbrev name : PageName
name = record { time = 1; suffix = 0 }

abbrev manager : Manager
manager = record {
  cur_page = some (name, record (create 64000224 none) { window = [] });
  files = λ x. none;
  page_list = name ∷ [];
  default_page_size = 64000224;
}

manager-StoredIn : StoredIn 8 manager []
manager-StoredIn =
    let sized : IsPageSize 8 64000224 = record {
      enough = omega arith;
      small = omega arith;
      whole = omega arith;
    } in
    let new = create-IsNew 8 64000224 [] sized in
    (
      [],
      [],
      record {
        name = name;
        page = record (create 64000224 none) { window = [] };
        current = refl;
        shows = new.shows;
        sound = new.sound;
        fits = new.fits;
        archive = tt;
        sized = sized;
      },
      refl,
    )

abbrev lim : Limits
lim = record { names = 3; tree = 3; now = 7 }

abbrev by_writer : Cache → Manager → Result (Cache × Manager)
by_writer = call_writer (λ ms. ms) 3 lim

abbrev stored : Result (Store Manager × AppendResult)
stored = append_all by_writer 3 [] ((1 ∷ []) ∷ (1 ∷ []) ∷ []) 9 three (first manager)

append_all-StoredIn_example :
    (kept : List Meas) × IsStore
      (StoredIn 8)
      (has_size 8)
      2
      kept
      (store_of (first manager) (after stored))
    × ((f : Meas → Bool)
        → total f kept (store_of (first manager) (after stored))
          ≡ total f [] (first manager) + tally f (young 9 (first manager).past_time three))
    × ((result_of stored).writed ≡ 3)
    × ((result_of stored).ignored ≡ stale 9 (first manager).past_time three)
unfolding append_all new_store make_pool init_pool add_caches get_cache free_cache append_array
    is_full make_cache set_storage store_all nkvdb.Cache.store_one check_past_time clear
    sync_complete sync_begin call_writer Append.append_array nkvdb.Page.is_full create init_header
    nkvdb.Index.write_index_rec make_index nkvdb.Index.flush insert init_cache Nodes.lower_bound
    Nodes.is_full
append_all-StoredIn_example =
    append_all-StoredIn 8 lim (omega arith) (λ ms. ms) (λ ms f. refl) 3 2 3 []
      ((1 ∷ []) ∷ (1 ∷ []) ∷ []) 9 three [] (first manager)
      (store_of (first manager) (after stored)) (result_of stored) (omega arith)
      (first-IsStore (StoredIn 8) (has_size 8) manager [] manager-StoredIn).0 refl refl

three_fit : AllFit (has_size 8) 9 (first manager).past_time three
unfolding new_store make_pool init_pool add_caches get_cache free_cache make_cache set_storage
    check_past_time
three_fit = refl

append_all-returns_example :
    ((st : Store Manager) × (r : AppendResult) × (append_all by_writer 3
          (1 ∷ [])
          ((1 ∷ []) ∷ (1 ∷ []) ∷ (1 ∷ []) ∷ [])
          9
          three
          (first manager)
        ≡ ok (st, r))
      × Appended (StoredIn 8) (has_size 8) 2 9 three [] (first manager) st
      × (r.writed ≡ 3)
      × (r.ignored ≡ stale 9 (first manager).past_time three))
    ⊎ ((fault : Fault) × (append_all by_writer 3
            (1 ∷ [])
            ((1 ∷ []) ∷ (1 ∷ []) ∷ (1 ∷ []) ∷ [])
            9
            three
            (first manager)
          ≡ err fault)
        × Failed by_writer (StoredIn 8) (has_size 8) 2 fault)
append_all-returns_example =
    append_all-returns
      (call_writer-IsWriter 8 lim (omega arith) (λ ms. ms) (λ ms f. refl) 3 2 (omega arith)) 2
      (1 ∷ []) ((1 ∷ []) ∷ (1 ∷ []) ∷ (1 ∷ []) ∷ []) 9 three [] (first manager)
      (first-IsStore (StoredIn 8) (has_size 8) manager [] manager-StoredIn).0
      (first-IsStore (StoredIn 8) (has_size 8) manager [] manager-StoredIn).1 three_fit
      (inl (omega arith)) (inl (omega arith), (inl (omega arith), (inl (omega arith), tt)))
      (omega arith)

-- After the append two measurements are in the page and one is in the current cache.
abbrev full : Store Manager
full = store_of (first manager) (after stored)

full-IsStore : (kept : List Meas) × IsStore (StoredIn 8) (has_size 8) 2 kept full
unfolding append_all new_store make_pool init_pool add_caches get_cache free_cache append_array
    is_full make_cache set_storage store_all nkvdb.Cache.store_one check_past_time clear
    sync_complete sync_begin call_writer Append.append_array nkvdb.Page.is_full create init_header
    nkvdb.Index.write_index_rec make_index nkvdb.Index.flush insert init_cache Nodes.lower_bound
    Nodes.is_full
full-IsStore =
    let (kept, store, _, _, _) =
      append_all-StoredIn 8 lim (omega arith) (λ ms. ms) (λ ms f. refl) 3 2 3 []
        ((1 ∷ []) ∷ (1 ∷ []) ∷ []) 9 three [] (first manager) full (result_of stored) (omega arith)
        (first-IsStore (StoredIn 8) (has_size 8) manager [] manager-StoredIn).0 refl refl in
    (kept, store)

full-IsPooled : IsPooled full × (full.queue ≡ [])
unfolding append_all new_store make_pool init_pool add_caches get_cache free_cache append_array
    is_full make_cache set_storage store_all nkvdb.Cache.store_one check_past_time clear
    sync_complete sync_begin call_writer Append.append_array nkvdb.Page.is_full create init_header
    nkvdb.Index.write_index_rec make_index nkvdb.Index.flush insert init_cache Nodes.lower_bound
    Nodes.is_full
full-IsPooled = ((inr (inl refl), tt), refl)

abbrev polls : List (ℕ × Bool)
polls = (0, false) ∷ (0, true) ∷ (1, false) ∷ []

full-HasLook : HasLook (length full.queue + 1) polls
full-HasLook = rw full-IsPooled.1 (inr (inr (inl (omega arith))))

flush_and_stop-Flushed_example :
    ((st₁ : Store Manager) × (st' : Store Manager) × (flush_and_stop by_writer 3 (1 ∷ []) polls full
        ≡ ok st₁)
      × (pause_work by_writer 3 st₁ ≡ ok st')
      × (length st₁.queue ≤ 1)
      × Flushed (StoredIn 8) (has_size 8) 2 full-IsStore.0 full st')
    ⊎ ((fault : Fault) × ((flush_and_stop by_writer 3 (1 ∷ []) polls full
            >>= pause_work by_writer 3)
          ≡ err fault)
        × Failed by_writer (StoredIn 8) (has_size 8) 2 fault)
flush_and_stop-Flushed_example =
    flush_and_stop-Flushed
      (call_writer-IsWriter 8 lim (omega arith) (λ ms. ms) (λ ms f. refl) 3 2 (omega arith)) 2
      (1 ∷ []) polls full-IsStore.0 full full-IsStore.1 full-IsPooled.0 (inl (omega arith))
      full-HasLook

-- ===== src/Storage/Writes/Tests.antt =====
-- Runs of the appends of libnkvdb/storage.cpp with pages that are a list, and instances of the theorems
-- about them.
use nkvdb.Prelude.{
  length, false, ◌+◌, ◌≡◌, refl, ap, Bool, true, List, [], ◌∷◌, ◌++◌, arith, sym, ◌∙◌,
}
use mathlib.Core.Path.{subst}
use nkvdb.Prelude.Result.{Result, ok, ok-injective}
use nkvdb.Meas.{Meas, AppendResult, check_past_time}
use nkvdb.Cache.{
  Cache, clear, sync_complete, sync_begin, append, append_array, make_cache, is_full, set_storage,
  store_all,
}
use nkvdb.Cache.Content.{contents, stale, IsValid}
use nkvdb.CachePool.{make_pool, get_cache, init_pool, add_caches, free_cache}
use nkvdb.Storage.Writes.{Store, new_store, append_one, append_all, flush_and_stop, pause_work}
use nkvdb.Storage.Writes.Keeping.{tally, tally-append, IsWriter, IsStore, IsPooled, total}
use nkvdb.Storage.Writes.Balance.{Appended, AllFit, append_one-Appended}
use nkvdb.Storage.Writes.Start.{new_store-IsStore}
use nkvdb.Storage.Writes.Runs.{sample, three, store_of, first, first-IsStore, after, result_of}

-- A writer to pages that are a list.
abbrev to_list : Cache → List Meas → Result (Cache × List Meas)
to_list c p = ok (sync_complete (clear c), p ++ contents c)

abbrev any : Meas → Bool
any m = true

abbrev SameList : List Meas → List Meas → Type 0
SameList p kept = p ≡ kept

to_list-IsWriter : IsWriter to_list SameList any 2
unfolding clear sync_complete
to_list-IsWriter c c' p p' kept fine h e =
    let cleared = sync_complete (clear c) in
    let pair : ◌≡◌ {A = Cache × List Meas} (cleared, p ++ contents c) (c', p') =
      ok-injective (cleared, p ++ contents c) (c', p') e in
    let cache : cleared ≡ c' = ap (λ (x : Cache × List Meas). x.0) pair in
    let valid : IsValid cleared = record {
      array = fine.valid.array;
      counted = refl;
      fits = omega arith;
      small = fine.valid.small;
    } in
    record {
      valid = subst IsValid cache valid;
      same_size = ap (λ (x : Cache). x.max_size) (sym cache);
      emptied = ap contents (sym cache);
      free = ap (λ (x : Cache). x.sync) (sym cache);
      kept' = p ++ contents c;
      stored' = ap (λ (x : Cache × List Meas). x.1) (sym pair);
      balance = λ f. tally-append f p (contents c) ∙ ap (λ ms. tally f ms + tally f (contents c)) h;
    }

new_store-IsStore_example :
    (st : Store (List Meas)) × (new_store 3 2 2 [] ≡ ok st)
    × IsStore SameList any 2 [] st
    × IsPooled st
    × ((f : Meas → Bool) → total f [] st ≡ tally f [])
new_store-IsStore_example =
    new_store-IsStore SameList any 2 2 2 2 [] [] (omega arith) (omega arith) (omega arith)
      (omega arith) refl

list_store :
    IsStore SameList any 2 [] (first {P = List Meas} []) × IsPooled (first {P = List Meas} [])
list_store = first-IsStore SameList any [] [] refl

three_fit : AllFit any 9 (first {P = List Meas} []).past_time three
unfolding new_store make_pool init_pool add_caches get_cache free_cache make_cache set_storage
    check_past_time
three_fit = refl

abbrev full : Store (List Meas)
full =
    store_of (first [])
      (after (append_all to_list 3 [] ((1 ∷ []) ∷ (1 ∷ []) ∷ []) 9 three (first [])))

-- Two measurements are in the pages' list and one in the current cache.
three_apart : full.pages ≡ sample 1 5 ∷ sample 2 6 ∷ []
unfolding append_all new_store make_pool init_pool add_caches get_cache free_cache append_array
    is_full make_cache set_storage store_all nkvdb.Cache.store_one check_past_time clear
    sync_complete sync_begin
three_apart = refl

abbrev one : Meas
one = sample 1 5

abbrev added : Result (Store (List Meas) × AppendResult)
added = append_one to_list 3 ((1 ∷ []) ∷ (1 ∷ []) ∷ []) 9 one (first [])

append_one-Appended_example :
    Appended SameList any 2 9 (one ∷ []) [] (first []) (store_of (first []) (after added))
    × ((result_of added).writed ≡ 1)
    × ((result_of added).ignored ≡ stale 9 (first {P = List Meas} []).past_time (one ∷ []))
unfolding append_one append new_store make_pool init_pool add_caches get_cache free_cache is_full
    make_cache set_storage check_past_time clear sync_complete sync_begin
append_one-Appended_example =
    append_one-Appended to_list-IsWriter 3 ((1 ∷ []) ∷ (1 ∷ []) ∷ []) 9 one [] (first [])
      (store_of (first []) (after added)) (result_of added) list_store.0 refl refl

-- The loop ends when the thread has taken the one cache of the queue, and before it is written.
abbrev flushed : Store (List Meas)
flushed = store_of full (flush_and_stop to_list 3 (0 ∷ []) ((0, false) ∷ (0, true) ∷ []) full)

abbrev paused : Store (List Meas)
paused = store_of full (pause_work to_list 3 flushed)

flush_unfinished : length flushed.queue ≡ 1
unfolding append_all flush_and_stop new_store make_pool init_pool add_caches get_cache free_cache
    append_array is_full make_cache set_storage store_all nkvdb.Cache.store_one check_past_time
    clear sync_complete sync_begin
flush_unfinished = refl

flush_finished : paused.pages ≡ three
unfolding append_all flush_and_stop pause_work new_store make_pool init_pool add_caches get_cache
    free_cache append_array is_full make_cache set_storage store_all nkvdb.Cache.store_one
    check_past_time clear sync_complete sync_begin
flush_finished = refl

-- ===== src/Page/Tests.antt =====
-- Runs of the two `append` functions of libnkvdb/page.cpp, and instances of the theorems about them.
use nkvdb.Prelude.{
  ℕ, zero, suc, ◌+◌, ◌≤◌, ◌<◌, ◌≡◌, refl, true, false, List, [], ◌∷◌, ◌++◌, some, arith, get_or,
  replicate, none,
}
use nkvdb.Prelude.Result.{Result, ok, err}
use nkvdb.Meas.{Meas, empty, AppendResult, no_append}
use nkvdb.Index.{make_index, write_index_rec, IndexQuery}
use nkvdb.Index.Ranges.{positions, range}
use nkvdb.Page.{Page, init_header, is_full, read}
use nkvdb.Page.Append.{store, append, append_array}
use nkvdb.Page.Layout.{IsSound, records_end, store-IsSound}
use nkvdb.Page.Layout.Overrun.{store-overruns}
use nkvdb.Page.Layout.ReadBack.{read_back, read-store_new, read-store_old}
use nkvdb.Page.Layout.Fill.{append_array-read}
use nkvdb.Page.Coverage.{append_array-covers}
use nkvdb.Page.Bounds.{IsFiltered, IsTimed, append-IsTimed}
use nkvdb.Page.Bounds.Batches.{IsSorted, append_array-IsTimed}

abbrev value8 : List ℕ
value8 = 1 ∷ 2 ∷ 3 ∷ 4 ∷ 5 ∷ 6 ∷ 7 ∷ 8 ∷ replicate 8 0

abbrev sample : ℕ → ℕ → Meas
sample id time = record { id = id; time = time; source = 1; flag = 2; value = value8; size = 8 }

-- A page with room for three measurements with values of eight bytes.
abbrev new_page : ℕ → Page
new_page size = record {
  header = init_header size;
  records = λ i. record { id = 0; time = 0; source = 0; flag = 0; size = 0; value_pos = 0 };
  bytes = λ a. 0;
  window = [];
  window_file = none;
  index = make_index 10 5;
  mapped = true;
}

abbrev small_page : Page
small_page = new_page 416

abbrev batch : List Meas
batch = sample 1 5 ∷ sample 2 6 ∷ sample 1 7 ∷ sample 3 9 ∷ []

abbrev page_of : Page → Result (Page × AppendResult) → Page
page_of p (ok (q, r)) = q
page_of p (err e) = p

abbrev result_of : Result (Page × AppendResult) → AppendResult
result_of (ok (q, r)) = r
result_of (err e) = no_append

-- The fourth measurement does not fit.
append_array_three :
    result_of (append_array 3 batch small_page) ≡ record { writed = 3; ignored = 0 }
unfolding append_array init_header make_index is_full write_index_rec
append_array_three = refl

small_page-IsSound : IsSound small_page
unfolding init_header
small_page-IsSound = record {
  apart = omega arith;
  inside = omega arith;
  small = omega arith;
  behind = λ i h. absurd (omega arith);
  stacked = λ i j h k. absurd (omega arith);
}

append_array-read_example :
    ((result_of (append_array 3 batch small_page)).writed ≡ 3)
    × ((k : ℕ)
        → k < (result_of (append_array 3 batch small_page)).writed
        → read (0 + k) (page_of small_page (append_array 3 batch small_page))
          ≡ ok (some (read_back (get_or batch k empty))))
    × ((j : ℕ)
        → j < 0
        → read j (page_of small_page (append_array 3 batch small_page)) ≡ read j small_page)
unfolding append_array init_header make_index is_full write_index_rec
append_array-read_example =
    append_array-read 8 3 batch small_page (page_of small_page (append_array 3 batch small_page))
      (result_of (append_array 3 batch small_page)) refl (omega arith) (omega arith)
      small_page-IsSound (omega arith)

-- The index takes one record for the three measurements written.
append_array-covers_example :
    (q : Page) × (r : AppendResult) × (append_array 3 batch small_page ≡ ok (q, r))
    × IsSound q
    × (r.writed ≤ 4)
    × (q.header.write_pos ≡ 0 + r.writed)
    × (positions q.index.pending ≡ positions [] ++ range 0 r.writed)
unfolding init_header make_index
append_array-covers_example =
    append_array-covers 8 3 batch small_page (omega arith) (omega arith) small_page-IsSound
      (omega arith) (omega arith)

read-store_new_example : read 0 (store (sample 1 5) small_page) ≡ ok (some (read_back (sample 1 5)))
unfolding init_header
read-store_new_example =
    read-store_new (sample 1 5) small_page small_page-IsSound (omega arith) (omega arith)
      (omega arith)

-- A page with one measurement in it.
abbrev used_page : Page
unfolding init_header store
used_page = store (sample 1 5) small_page

used_page-IsSound : IsSound used_page
unfolding init_header store
used_page-IsSound = store-IsSound (sample 1 5) small_page small_page-IsSound (omega arith)

read-store_old_example : read 0 (store (sample 2 6) used_page) ≡ read 0 used_page
unfolding init_header store
read-store_old_example =
    read-store_old (sample 2 6) used_page 0 used_page-IsSound (omega arith) (omega arith)

store-IsSound_example : IsSound (store (sample 1 5) small_page)
unfolding init_header
store-IsSound_example = store-IsSound (sample 1 5) small_page small_page-IsSound (omega arith)

-- Sixty free bytes: a record and 56 bytes are let through, and 64 are taken.
abbrev odd_page : Page
odd_page = new_page 284

odd_page-IsSound : IsSound odd_page
unfolding init_header
odd_page-IsSound = record {
  apart = omega arith;
  inside = omega arith;
  small = omega arith;
  behind = λ i h. absurd (omega arith);
  stacked = λ i j h k. absurd (omega arith);
}

store-overruns_example :
    ((store (sample 1 5) odd_page).header.write_value_pos
      < records_end (store (sample 1 5) odd_page))
    × (is_full (store (sample 1 5) odd_page) ≡ false)
unfolding init_header is_full
store-overruns_example =
    store-overruns (sample 1 5) odd_page odd_page-IsSound (omega arith) refl (omega arith)

new_page-IsFiltered : IsFiltered small_page
unfolding init_header
new_page-IsFiltered = record {
  ids = λ i h. absurd (omega arith);
  flags = λ i h. absurd (omega arith);
  sources = λ i h. absurd (omega arith);
}

new_page-IsTimed : IsTimed small_page
unfolding init_header
new_page-IsTimed = record {
  enclosed = λ i h. absurd (omega arith);
  init = λ h. absurd (omega arith);
}

abbrev added_one : Page
added_one = page_of small_page (append 3 0 0 (sample 1 5) small_page)

append-IsTimed_example : IsSound added_one × IsFiltered added_one × IsTimed added_one
unfolding append init_header make_index is_full write_index_rec
append-IsTimed_example =
    append-IsTimed 3 0 0 (sample 1 5) small_page added_one
      (result_of (append 3 0 0 (sample 1 5) small_page)) refl small_page-IsSound (λ e. omega arith)
      new_page-IsFiltered new_page-IsTimed

abbrev two : List Meas
two = sample 1 5 ∷ sample 2 6 ∷ []

two-IsSorted : IsSorted two
two-IsSorted zero zero h k = omega arith
two-IsSorted zero (suc zero) h k = omega arith
two-IsSorted (suc i) zero h k = absurd (omega arith)
two-IsSorted (suc zero) (suc zero) h k = omega arith
two-IsSorted (suc (suc i)) (suc zero) h k = absurd (omega arith)
two-IsSorted i (suc (suc j)) h k = absurd (omega arith)

abbrev added_two : Page
added_two = page_of small_page (append_array 3 two small_page)

append_array-IsTimed_example : IsSound added_two × IsFiltered added_two × IsTimed added_two
unfolding append_array init_header make_index is_full write_index_rec
append_array-IsTimed_example =
    append_array-IsTimed 8 3 two small_page added_two (result_of (append_array 3 two small_page))
      refl (omega arith) (omega arith) small_page-IsSound (omega arith) two-IsSorted
      new_page-IsFiltered new_page-IsTimed

abbrev flag_query : IndexQuery
flag_query = record { ids = []; source = 0; flag = 2; from = 0; to = 9 }

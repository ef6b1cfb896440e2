-- ===== src/Query/Tests.antt =====
-- Runs of the queries of libnkvdb/page.cpp and libnkvdb/readers.cpp, and instances of the theorems
-- about them.
use nkvdb.Prelude.{
  ℕ, zero, suc, ◌≤◌, ◌<◌, ◌≡◌, refl, true, List, [], ◌∷◌, some, none, arith, replicate, get_or,
  select,
}
use nkvdb.Prelude.Result.{Result, ok, err}
use nkvdb.Meas.{Meas, AppendResult, no_append, empty}
use nkvdb.Index.{make_index, write_index_rec}
use nkvdb.Page.{Page, init_header, is_full, read, update_min_max, load}
use nkvdb.Page.Append.{append_array}
use nkvdb.Page.Layout.{IsSound}
use nkvdb.Page.Layout.ReadBack.{read_back}
use nkvdb.Page.Bounds.{IsTimed}
use nkvdb.Page.Bounds.Batches.{IsSorted}
use nkvdb.Query.{Selection, check_value_flags}
use nkvdb.Query.Readers.{IntervalReader, is_end, read_all, read_interval, make_reader, add_read_pos}
use nkvdb.Query.Readers.Runs.{items, span_items, at_place, chosen, read_all_lem, IsRunning}
use nkvdb.Query.Whole.{read_interval-whole}
use nkvdb.Query.Stored.{append_array-read_interval}

abbrev sample : ℕ → ℕ → Meas
sample id time = record {
  id = id;
  time = time;
  source = 1;
  flag = 2;
  value = 7 ∷ 6 ∷ 5 ∷ 4 ∷ 3 ∷ 2 ∷ 1 ∷ 0 ∷ replicate 8 0;
  size = 8;
}

abbrev batch : List Meas
batch = sample 1 5 ∷ sample 2 6 ∷ []

abbrev bare_page : Page
bare_page = record {
  header = init_header 416;
  records = λ i. record { id = 0; time = 0; source = 0; flag = 0; size = 0; value_pos = 0 };
  bytes = λ a. 0;
  window = [];
  window_file = none;
  index = make_index 10 5;
  mapped = true;
}

abbrev page_of : Result (Page × AppendResult) → Page
page_of (ok (q, r)) = q
page_of (err e) = bare_page

abbrev result_of : Result (Page × AppendResult) → AppendResult
result_of (ok (q, r)) = r
result_of (err e) = no_append

abbrev filled : Page
filled = page_of (append_array 3 batch bare_page)

abbrev stored : ℕ → Meas
stored k = read_back (get_or batch k empty)

abbrev of_one : Selection
of_one = record { ids = 1 ∷ []; source = 0; flag = 2 }

batch-IsSorted : IsSorted batch
batch-IsSorted zero zero h k = omega arith
batch-IsSorted zero (suc zero) h k = omega arith
batch-IsSorted (suc i) zero h k = absurd (omega arith)
batch-IsSorted (suc zero) (suc zero) h k = omega arith
batch-IsSorted (suc (suc i)) (suc zero) h k = absurd (omega arith)
batch-IsSorted i (suc (suc j)) h k = absurd (omega arith)

bare_page-IsSound : IsSound bare_page
unfolding init_header
bare_page-IsSound = record {
  apart = omega arith;
  inside = omega arith;
  small = omega arith;
  behind = λ i h. absurd (omega arith);
  stacked = λ i j h k. absurd (omega arith);
}

append_array-read_interval_example :
    (reader : IntervalReader) × (read_interval 3 of_one 4 9 filled ≡ ok (some reader))
    × (ended : IntervalReader) × (read_all 4 3 2 reader
        ≡ ok (
          ended,
          select
              (check_value_flags of_one)
              (items stored 0 (result_of (append_array 3 batch bare_page)).writed),
        ))
    × (is_end ended ≡ true)
unfolding append_array init_header make_index is_full write_index_rec update_min_max
append_array-read_interval_example =
    append_array-read_interval 8 3 batch bare_page filled
      (result_of (append_array 3 batch bare_page)) of_one 4 9 4 1 refl refl (omega arith)
      (omega arith) ((refl, omega arith), ((refl, omega arith), tt)) batch-IsSorted
      bare_page-IsSound (omega arith) (omega arith) (omega arith) (omega arith) (omega arith)

filled-readable : (i : ℕ) → i < 2 → read i filled ≡ ok (some (stored i))
unfolding append_array init_header make_index is_full write_index_rec read update_min_max load
filled-readable zero h = refl
filled-readable (suc zero) h = refl
filled-readable (suc (suc i)) h = absurd (omega arith)

abbrev two_runs : IntervalReader
two_runs = record (add_read_pos 1 2 (add_read_pos 0 1 (make_reader filled))) { from = 4; to = 9 }

two_runs-IsRunning : IsRunning two_runs stored 2
unfolding append_array init_header make_index is_full write_index_rec update_min_max
two_runs-IsRunning = record {
  by_positions = refl;
  in_time = refl;
  no_point = refl;
  readable = filled-readable;
}

read_all_example :
    (q : IntervalReader) × (read_all 4 3 2 (at_place two_runs ((0, 1) ∷ (1, 2) ∷ []) 0 0)
      ≡ ok (q, chosen two_runs (span_items stored ((0, 1) ∷ (1, 2) ∷ []))))
    × (is_end q ≡ true)
read_all_example =
    read_all_lem two_runs stored 2 3 1 two_runs-IsRunning 4 ((0, 1) ∷ (1, 2) ∷ []) 0 0 0 refl
      (omega arith) ((omega arith, omega arith), ((omega arith, omega arith), tt)) (omega arith)

filled-IsTimed : IsTimed filled
unfolding append_array init_header make_index is_full write_index_rec update_min_max
filled-IsTimed = record { enclosed = within; init = λ h. refl }
  where
    within :
        (i : ℕ)
        → i < filled.header.write_pos
        → (filled.header.min_time ≤ (filled.records i).time)
          × ((filled.records i).time ≤ filled.header.max_time)
    within zero h = (omega arith, omega arith)
    within (suc zero) h = (omega arith, omega arith)
    within (suc (suc i)) h = absurd (omega arith)

read_interval-whole_example :
    (r : IntervalReader) × (read_interval 3 of_one 4 9 filled ≡ ok (some r))
    × (q : IntervalReader) × (read_all 4 3 2 r
        ≡ ok (q, select (check_value_flags of_one) (items stored 0 filled.header.write_pos)))
    × (is_end q ≡ true)
unfolding append_array init_header make_index is_full write_index_rec update_min_max
read_interval-whole_example =
    read_interval-whole filled stored 4 9 3 1 filled-IsTimed filled-readable (omega arith)
      (omega arith) (omega arith) of_one 4 (omega arith)

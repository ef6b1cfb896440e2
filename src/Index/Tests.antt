-- ===== src/Index/Tests.antt =====
-- Runs of libnkvdb/index.cpp, and instances of the theorems about it.
use nkvdb.Prelude.{ℕ, ◌+◌, ◌≡◌, refl, true, List, [], ◌∷◌, ◌++◌, map}
use nkvdb.Prelude.Result.{Result, ok, err, ◌>>=◌}
use nkvdb.BTree.{insert, init_cache, find_node}
use nkvdb.BTree.Nodes.{lower_bound, is_full, insert_value}
use nkvdb.Index.{
  Index, IndexRecord, IndexQuery, Scan, zero_record, make_index, write_index_rec, find_in_index,
  scan_vals,
}
use nkvdb.Index.Ranges.{found, positions, admitted, found-scan_vals}

abbrev hundred : ℕ → ℕ → IndexRecord
hundred pos time = record zero_record {
  pos = pos;
  count = 100;
  min_time = time;
  max_time = time + 9;
  min_id = 3;
  max_id = 8;
}

abbrev query : ℕ → ℕ → IndexQuery
query from to = record { ids = []; source = 0; flag = 0; from = from; to = to }

abbrev scan_start : Scan
scan_start = record { first = true; prev_value = zero_record; result = [] }

abbrev leaf : List (ℕ × IndexRecord)
leaf = (10, hundred 0 10) ∷ (20, hundred 100 20) ∷ (30, hundred 200 30) ∷ []

found-scan_vals_example :
    found (scan_vals (query 12 25) leaf scan_start)
    ≡ found scan_start ++ positions (admitted (query 12 25) leaf)
found-scan_vals_example = found-scan_vals (query 12 25) leaf scan_start

abbrev found_in : Result (List IndexRecord × Index) → List (ℕ × ℕ)
found_in (ok (rs, ix)) = map (λ r. (r.pos, r.count)) rs
found_in (err e) = []

-- The two records that meet the interval are joined.
find_in_index_runs :
    found_in (
      write_index_rec 3 (hundred 0 10) (make_index 10 5)
      >>= write_index_rec 3 (hundred 100 20)
      >>= write_index_rec 3 (hundred 200 30)
      >>= find_in_index 3 (query 12 25))
    ≡ (0, 200) ∷ []
unfolding write_index_rec find_in_index make_index insert init_cache lower_bound is_full
    insert_value find_node
find_in_index_runs = refl

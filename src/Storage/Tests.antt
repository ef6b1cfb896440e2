-- ===== src/Storage/Tests.antt =====
-- Runs of the choice of pages of libnkvdb/storage.cpp, and instances of the theorems about it.
use nkvdb.Prelude.{ℕ, ◌≡◌, refl, List, [], ◌∷◌, arith, inl, All, some}
use nkvdb.Index.{IndexQuery}
use nkvdb.Bloom.{bloom_check}
use nkvdb.Page.{init_header}
use nkvdb.Storage.{PageInfo, filters_pass, choose_interval, choose_point, get_oldes_page}
use nkvdb.Storage.Complete.{In, choose_interval_complete}
use nkvdb.Storage.Point.{IsTaken, choose_point-IsOne}
use nkvdb.Storage.Oldes.{Has, EndsBy, get_oldes_page-latest}

abbrev page_info : ℕ → ℕ → ℕ → PageInfo ℕ
page_info name first last = record {
  header = record (init_header 416) {
    min_time = first;
    max_time = last;
    id_fltr = 3;
    flag_fltr = 6;
  };
  name = name;
}

abbrev pages : List (PageInfo ℕ)
pages = page_info 10 1 4 ∷ page_info 11 5 9 ∷ page_info 12 10 20 ∷ []

abbrev query : ℕ → ℕ → IndexQuery
query from to = record { ids = 1 ∷ []; source = 0; flag = 2; from = from; to = to }

-- A page that ends where the query begins is passed by.
choose_interval_edge : (choose_interval (query 20 30) pages).to_read ≡ []
unfolding choose_interval filters_pass init_header bloom_check
choose_interval_edge = refl

choose_interval_complete_example : In 11 (choose_interval (query 6 12) pages).to_read
unfolding filters_pass init_header bloom_check
choose_interval_complete_example =
    choose_interval_complete (page_info 11 5 9) (query 6 12) pages 1 7 refl refl (omega arith)
      (omega arith) (omega arith) (omega arith) (inl (omega arith))

choose_point-IsOne_example :
    (name : ℕ) × ((choose_point (query 7 7) pages).to_read ≡ name ∷ [])
    × IsTaken (query 7 7) pages name
unfolding filters_pass init_header bloom_check
choose_point-IsOne_example =
    choose_point-IsOne (query 7 7) pages 1 (page_info 11 5 9) refl refl (omega arith) (omega arith)

get_oldes_page-latest_example :
    (name : ℕ) × (last : ℕ) × (get_oldes_page pages ≡ some name)
    × Has name last pages
    × All (EndsBy last) pages
get_oldes_page-latest_example =
    get_oldes_page-latest (page_info 10 1 4) (page_info 11 5 9 ∷ page_info 12 10 20 ∷ [])
      (omega arith, (omega arith, (omega arith, tt)))

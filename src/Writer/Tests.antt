-- ===== src/Writer/Tests.antt =====
-- A run of the writer of libnkvdb/storage.cpp over two pages, and instances of the theorems about it.
use nkvdb.Prelude.{
  ℕ, ◌≡◌, refl, false, List, [], ◌∷◌, ◌++◌, some, none, arith, All, replicate, true,
}
use nkvdb.Prelude.Result.{Result, ok, err}
use nkvdb.Meas.{Meas}
use nkvdb.Index.{make_index, write_index_rec, flush}
use nkvdb.Page.{Page, init_header, is_full, close}
use nkvdb.Page.Append.{append_array}
use nkvdb.Cache.{Cache}
use nkvdb.BTree.{insert, init_cache}
use nkvdb.BTree.Nodes
use nkvdb.Page.Files.{create}
use nkvdb.Manager.{Manager, PageName, create_new_page}
use nkvdb.Writer.{Limits, write_loop, call_writer}
use nkvdb.Page.Layout.Fill.{HasSize}
use nkvdb.Writer.Holds.{Holds, contents}
use nkvdb.Writer.Pages.{write_loop-contents}
use nkvdb.Writer.Calls.{call_writer-contents}

abbrev sample : ℕ → ℕ → Meas
sample id time = record {
  id = id;
  time = time;
  source = 1;
  flag = 2;
  value = 1 ∷ 2 ∷ 3 ∷ 4 ∷ 5 ∷ 6 ∷ 7 ∷ 8 ∷ replicate 8 0;
  size = 8;
}

-- A page with room for one measurement.
abbrev last_page : Page
last_page = record {
  header = init_header 288;
  records = λ i. record { id = 0; time = 0; source = 0; flag = 0; size = 0; value_pos = 0 };
  bytes = λ a. 0;
  window = [];
  window_file = none;
  index = make_index 10 5;
  mapped = true;
}

abbrev name : PageName
name = record { time = 1; suffix = 0 }

abbrev manager : Manager
manager = record {
  cur_page = some (name, last_page);
  files = λ x. none;
  page_list = name ∷ [];
  default_page_size = 64000224;
}

abbrev lim : Limits
lim = record { names = 3; tree = 3; now = 7 }

abbrev two : List Meas
two = sample 1 5 ∷ sample 2 6 ∷ []

abbrev manager_of : Result (Manager × List Meas) → Manager
manager_of (ok (m, left)) = m
manager_of (err e) = manager

-- The second measurement goes to a new page.
two_pages :
    (manager_of (write_loop 3 lim two manager)).page_list
    ≡ name ∷ record { time = 7; suffix = 0 } ∷ []
unfolding write_loop append_array init_header make_index is_full write_index_rec create_new_page
    close flush insert init_cache nkvdb.BTree.Nodes.lower_bound nkvdb.BTree.Nodes.is_full create
two_pages = refl

manager-Holds : Holds 8 manager [] []
unfolding init_header
manager-Holds = record {
  name = name;
  page = last_page;
  current = refl;
  shows = record { count = refl; reads = λ k h. absurd (omega arith) };
  sound = record {
    apart = omega arith;
    inside = omega arith;
    small = omega arith;
    behind = λ i h. absurd (omega arith);
    stacked = λ i j h k. absurd (omega arith);
  };
  fits = omega arith;
  archive = tt;
  sized = record { enough = omega arith; small = omega arith; whole = omega arith };
}

two-HasSize : All (HasSize 8) two
two-HasSize = ((refl, omega arith), ((refl, omega arith), tt))

write_loop-contents_example :
    (◌≡◌ {A = List Meas} [] [])
    × (closed : List (PageName × List Meas)) × (ms : List Meas) × Holds 8
        (manager_of (write_loop 3 lim two manager))
        closed
        ms
    × (contents closed ms ≡ two)
unfolding write_loop append_array init_header make_index is_full write_index_rec create_new_page
    close flush insert init_cache nkvdb.BTree.Nodes.lower_bound nkvdb.BTree.Nodes.is_full create
write_loop-contents_example =
    write_loop-contents 8 lim (omega arith) 3 two [] manager
      (manager_of (write_loop 3 lim two manager)) [] [] two-HasSize manager-Holds (omega arith) refl

-- A cache with three slots, two of them in use.
abbrev cache : Cache
cache = record {
  max_size = 3;
  meases = two ++ sample 0 0 ∷ [];
  size = 2;
  index = 2;
  sync = true;
  has_storage = true;
}

abbrev called : Result (Cache × Manager)
called = call_writer (λ ms. ms) 3 lim cache manager

abbrev cache_of : Result (Cache × Manager) → Cache
cache_of (ok (c, m)) = c
cache_of (err e) = cache

abbrev manager_after : Result (Cache × Manager) → Manager
manager_after (ok (c, m)) = m
manager_after (err e) = manager

call_writer-contents_example :
    ((cache_of called).size ≡ 0)
    × ((cache_of called).index ≡ 0)
    × ((cache_of called).sync ≡ false)
    × (closed : List (PageName × List Meas)) × (ms : List Meas) × Holds 8
        (manager_after called)
        closed
        ms
    × (contents closed ms ≡ two)
unfolding call_writer append_array init_header make_index is_full write_index_rec create_new_page
    close flush insert init_cache nkvdb.BTree.Nodes.lower_bound nkvdb.BTree.Nodes.is_full create
call_writer-contents_example =
    call_writer-contents 8 lim (λ ms. ms) 3 cache (cache_of called) manager (manager_after called)
      [] [] (omega arith) two-HasSize manager-Holds (omega arith) refl

-- ===== src/Storage/Reading/Tests.antt =====
-- A run of StorageReader of libnkvdb/storage.cpp over two pages, and an instance of the theorem about it.
use nkvdb.Prelude.{ℕ, ◌≡◌, refl, true, List, [], ◌∷◌, none, replicate}
use nkvdb.Prelude.Result.{Result, ok, err}
use nkvdb.Meas.{Meas, AppendResult}
use nkvdb.Page.{Page}
use nkvdb.Page.Append.{append_array}
use nkvdb.Page.Files.{create}
use nkvdb.Query.Readers.{any, make_reader}
use nkvdb.Manager.{Manager, PageName, put_file}
use nkvdb.Storage.Reading.{
  PageReader, interval, StorageReader, page_is_end, page_read_next, is_end, open_reader, add_page,
  read_next, read_all,
}
use nkvdb.Storage.Reading.Answers.{PagesRead, read_all-PagesRead}

abbrev sample : ℕ → ℕ → Meas
sample id time = record {
  id = id;
  time = time;
  source = 1;
  flag = 2;
  value = replicate 16 0;
  size = 8;
}

abbrev page_of : Result (Page × AppendResult) → Page
page_of (ok (p, r)) = p
page_of (err e) = create 416 none

abbrev page_with : List Meas → Page
page_with ms = page_of (append_array 3 ms (create 416 none))

abbrev name : ℕ → PageName
name time = record { time = time; suffix = 0 }

abbrev manager : Manager
manager = record {
  cur_page = none;
  files =
      put_file (name 1) (page_with (sample 1 5 ∷ sample 2 6 ∷ []))
        (put_file (name 2) (page_with (sample 1 8 ∷ [])) (λ x. none));
  page_list = name 1 ∷ name 2 ∷ [];
  default_page_size = 416;
}

abbrev reader : StorageReader
unfolding add_page
reader = add_page (name 2) (
    add_page (name 1) (record {
      sel = any;
      from = 1;
      to = 9;
      time_point = 0;
      prev_page = none;
      pages = [];
      current = none;
    }))

abbrev three : List Meas
three = sample 1 5 ∷ sample 2 6 ∷ sample 1 8 ∷ []

abbrev reader_of : Result PageReader → PageReader
reader_of (ok c) = c
reader_of (err e) = interval (make_reader (create 416 none))

abbrev left_of : PageReader → Result (PageReader × List Meas) → PageReader
left_of c (ok (d, ms)) = d
left_of c (err e) = c

abbrev page_read : PageName → Result (PageReader × List Meas)
page_read n =
    read_all page_is_end (page_read_next 3 10) 4 (reader_of (open_reader 3 manager reader n))

page_PagesRead : PagesRead 3 10 manager reader reader.pages three
unfolding add_page open_reader append_array nkvdb.Page.is_full create nkvdb.Page.init_header
    nkvdb.Index.write_index_rec nkvdb.Index.make_index nkvdb.Page.update_min_max read_all
    nkvdb.Query.Readers.is_end nkvdb.Query.Readers.read_next nkvdb.Page.read nkvdb.Page.load
    nkvdb.Query.Readers.passes nkvdb.Query.check_value_flags
page_PagesRead = (
  sample 1 5 ∷ sample 2 6 ∷ [],
  sample 1 8 ∷ [],
  record {
    reader = reader_of (open_reader 3 manager reader (name 1));
    opens = refl;
    rounds = 4;
    left = left_of (reader_of (open_reader 3 manager reader (name 1))) (page_read (name 1));
    reads = refl;
  },
  (
    sample 1 8 ∷ [],
    [],
    record {
      reader = reader_of (open_reader 3 manager reader (name 2));
      opens = refl;
      rounds = 4;
      left = left_of (reader_of (open_reader 3 manager reader (name 2))) (page_read (name 2));
      reads = refl;
    },
    refl,
    refl,
  ),
  refl,
)

read_all-PagesRead_example :
    (n : ℕ) × (q : StorageReader) × (read_all is_end (read_next 3 10 manager) n reader
      ≡ ok (q, three))
    × (is_end q ≡ true)
    × (q.pages ≡ [])
unfolding add_page
read_all-PagesRead_example = read_all-PagesRead 3 10 manager reader three refl page_PagesRead

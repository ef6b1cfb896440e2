-- ===== src/Manager/Tests.antt =====
-- A run of `createNewPage` of libnkvdb/page_manager.cpp, and an instance of the theorem about it.
use nkvdb.Prelude.{◌≡◌, refl, [], ◌∷◌, ◌++◌, some, none}
use nkvdb.Prelude.Result.{Result, ok, err}
use nkvdb.Index.{make_index, flush}
use nkvdb.Page.{Page, init_header, close}
use nkvdb.Page.Files.{create}
use nkvdb.Manager.{Manager, PageName, put_file, create_new_page}
use nkvdb.Manager.Switch.{IsClosed, create_new_page_lem}

abbrev old : PageName
old = record { time = 7; suffix = 0 }

abbrev first_page : Page
first_page = create 416 none

abbrev manager : Manager
manager = record {
  cur_page = some (old, first_page);
  files = λ x. none;
  page_list = old ∷ [];
  default_page_size = 416;
}

abbrev manager_of : Result Manager → Manager
manager_of (ok m) = m
manager_of (err e) = manager

-- The clock did not move, so that the new page has another suffix.
abbrev new : Manager
new = manager_of (create_new_page 3 3 7 manager)

second_suffix : new.page_list ≡ old ∷ record { time = 7; suffix = 1 } ∷ []
unfolding create_new_page create init_header make_index close flush
second_suffix = refl

create_new_page_lem_example :
    (name : PageName) × (q : Page) × (new.cur_page
      ≡ some (name, record (create 416 none) { window = [] }))
    × IsClosed 3 first_page q
    × (new.files ≡ put_file old q (λ x. none))
    × (new.files name ≡ none)
    × (new.page_list ≡ (old ∷ []) ++ name ∷ [])
    × (new.default_page_size ≡ 416)
unfolding create_new_page create init_header make_index close flush
create_new_page_lem_example = create_new_page_lem 3 3 7 manager new old first_page refl refl refl

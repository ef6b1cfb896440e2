-- ===== src/Manager.antt =====
-- class PageManager of include/page_manager.h and libnkvdb/page_manager.cpp: the page that is written
-- to, and the files of the others.
pub mod Switch
mod Tests
use nkvdb.Prelude.{
  ℕ, zero, suc, ◌+◌, ◌%◌, ◌^◌, Bool, true, false, List, [], ◌∷◌, ◌++◌, ◌&&◌, Option, none, some,
  ◌==◌, if◌then◌else◌,
}
use nkvdb.Prelude.Result.{Result, ok, err, undefined, no_fuel, ◌>>=◌}
use nkvdb.WriteWindow.{WriteWindow, assign}
use nkvdb.Page.{Page, Header, close}
use nkvdb.Page.Files.{create, open_page, read_header}
use nkvdb.Storage.{PageInfo, get_oldes_page}

-- A page's file name, `<time>_<suffix>.page` in the directory of the storage.
pub record PageName : Type 0 where
  pub time : ℕ
  pub suffix : ℕ

abbrev pub same_name : PageName → PageName → Bool
same_name a b = a.time == b.time && a.suffix == b.suffix

-- `files` are the pages' files but for that of `m_curpage`, which is mapped, and is the page object
-- itself.
pub record Manager : Type 0 where
  pub cur_page : Option (PageName × Page)
  pub files : PageName → Option Page
  pub page_list : List PageName
  pub default_page_size : ℕ

-- The file of a name.
unfoldable pub file_of : PageName → Manager → Option Page
file_of name m = elim m.cur_page [
  | none ↦ m.files name
  | some cur ↦ if same_name name cur.0 then some cur.1 else m.files name
]

abbrev pub put_file : PageName → Page → (PageName → Option Page) → PageName → Option Page
put_file name page files x = if same_name x name then some page else files x

abbrev pub is_some : Option Page → Bool
is_some none = false
is_some (some p) = true

-- `getNewPageUniqueName`, from a suffix on, a `uint32_t`; `now` is what the clock says.
unfoldable pub unique_name : ℕ → ℕ → ℕ → Manager → Result PageName
unfolding file_of
unique_name zero now suffix m = err no_fuel
unique_name (suc rounds) now suffix m =
    let name : PageName = record { time = now; suffix = suffix } in
    let rest = unique_name rounds now ((suffix + 1) % 2 ^ 32) m in
    if is_some (file_of name m) then rest else ok name

-- `closeCurrentPage`.
unfoldable pub close_current_page : ℕ → Manager → Result Manager
close_current_page fuel m = elim m.cur_page [
  | none ↦ ok m
  | some cur ↦ do
    p ← close fuel cur.1
    ok (record m { cur_page = none; files = put_file cur.0 p m.files })
]

-- The window that a new page takes over; `setWriteWindow` copies it.
abbrev pub take_over : Option (PageName × Page) → Page → Page
take_over none p = p
take_over (some cur) p = record p { window = assign p.window cur.1.window }

-- `createNewPage`.
unfoldable pub create_new_page : ℕ → ℕ → ℕ → Manager → Result Manager
unfolding close_current_page unique_name
create_new_page rounds fuel now m = do
  m₁ ← close_current_page fuel m
  name ← unique_name rounds now 0 m₁
  let page = take_over m.cur_page (create m.default_page_size none)
  ok (record m₁ { cur_page = some (name, page); page_list = m₁.page_list ++ name ∷ [] })

-- `open`, for a file that is not mapped.
unfoldable pub open_current : PageName → Bool → Manager → Result Manager
open_current name read_only m = do
  p ← open_page read_only (m.files name)
  ok (record m { cur_page = some (name, p) })

-- `pageList`: the directory is read when no name is known yet.
unfoldable pub page_list_of : List PageName → Manager → List PageName
page_list_of dir m = elim m.page_list [ [] ↦ dir | x ∷ xs ↦ m.page_list ]

unfoldable pub read_headers : List PageName → Manager → Result (List (PageInfo PageName))
unfolding file_of read_header
read_headers [] m = ok []
read_headers (name ∷ names) m = do
  hdr ← read_header (file_of name m)
  infos ← read_headers names m
  ok (record { header = hdr; name = name } ∷ infos)

-- `pagesByTime`; `sort` is `std::sort` by the last time, from the latest down.
unfoldable pub pages_by_time :
    (List (PageInfo PageName) → List (PageInfo PageName))
    → List PageName
    → Manager
    → Result (List (PageInfo PageName))
unfolding read_headers page_list_of
pages_by_time sort dir m = read_headers (page_list_of dir m) m >>= λ infos. ok (sort infos)

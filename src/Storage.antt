-- ===== src/Storage.antt =====
-- The choice of pages for a query, in libnkvdb/storage.cpp, and of the page to go on with, in
-- libnkvdb/page_manager.cpp. A name of a page is of any type, and the empty name that
-- stands for no page is `none`.
pub mod Complete
pub mod Point
pub mod Oldes
pub mod Writes
pub mod Reading
pub mod Times
pub mod Queries
mod Tests
use nkvdb.Prelude.{
  ℕ, ◌+◌, Bool, true, false, List, [], ◌∷◌, ◌++◌, ◌&&◌, ◌||◌, not, Option, none, some, ltb, leb,
  ◌==◌, if◌then◌else◌, length,
}
use nkvdb.Bloom.{bloom_check}
use nkvdb.Page.{Header}
use nkvdb.Index.{IndexQuery}

-- `PageManager::PageInfo`.
pub record PageInfo (Name : Type 0) : Type 0 where
  pub header : Header
  pub name : Name

-- What both functions leave: the pages to read, and `prev_interval_page`.
pub record Chosen (Name : Type 0) : Type 0 where
  pub to_read : List Name
  pub prev_page : Option Name

-- Whether the id filter has one of the ids.
unfoldable pub some_id : List ℕ → ℕ → Bool
some_id [] fltr = false
some_id (id ∷ ids) fltr = if bloom_check fltr id then true else some_id ids fltr

abbrev pub no_ids : List ℕ → Bool
no_ids [] = true
no_ids (id ∷ ids) = false

-- The three tests of the header's filters, with which both loops begin.
unfoldable pub filters_pass : IndexQuery → Header → Bool
unfolding some_id
filters_pass q hdr =
    if not (q.flag == 0) && not (hdr.flag_fltr == 0) && not (bloom_check hdr.flag_fltr q.flag)
    then false
    else if not (q.source == 0)
        && not (hdr.src_fltr == 0)
        && not (bloom_check hdr.src_fltr q.source)
    then false
    else no_ids q.ids || hdr.id_fltr == 0 || some_id q.ids hdr.id_fltr

module _ {Name : Type 0} where
  -- The end of the list of pages to read.
  abbrev pub push : Name → Chosen Name → Chosen Name
  push name s = record s { to_read = s.to_read ++ name ∷ [] }

  -- Setting `prev_interval_page` to the page before, where there is one.
  abbrev pub set_prev : Option (PageInfo Name) → Chosen Name → Chosen Name
  set_prev none s = s
  set_prev (some p) s = record s { prev_page = some p.name }

  abbrev pub is_none : Option Name → Bool
  is_none none = true
  is_none (some x) = false

  -- Whether the page before ends by a moment.
  abbrev pub ends_by : ℕ → Option (PageInfo Name) → Bool
  ends_by moment none = false
  ends_by moment (some p) = leb p.header.max_time moment

  abbrev pub push_prev : Option (PageInfo Name) → Chosen Name → Chosen Name
  push_prev none s = s
  push_prev (some p) s = push p.name s

  -- One round of the loop of `Storage::readInterval`, after the filters: `prev` is `pages[i - 1]`.
  unfoldable pub visit : ℕ → ℕ → Option (PageInfo Name) → PageInfo Name → Chosen Name → Chosen Name
  visit from to prev page s =
      let hdr = page.header in
      let s' = push page.name s in
      if leb hdr.min_time from && leb to hdr.max_time
      then (if is_none s.prev_page && length s'.to_read == 1 then set_prev prev s' else s')
      else if leb hdr.min_time from && ltb from hdr.max_time
      then set_prev prev s'
      else if ltb from hdr.min_time && ends_by from prev
      then push page.name (push_prev prev s)
      else if leb from hdr.min_time && leb to hdr.max_time && leb hdr.min_time to
      then s'
      else if leb from hdr.min_time && leb hdr.max_time to
      then s'
      else s

  unfoldable pub visit_all :
      IndexQuery → Option (PageInfo Name) → List (PageInfo Name) → Chosen Name → Chosen Name
  unfolding visit filters_pass
  visit_all q prev [] s = s
  visit_all q prev (page ∷ pages) s =
      visit_all q (some page) pages
        (if filters_pass q page.header then visit q.from q.to prev page s else s)

  -- The pages that `Storage::readInterval` gives to its reader; `pages` go up in their last times.
  unfoldable pub choose_interval : IndexQuery → List (PageInfo Name) → Chosen Name
  unfolding visit_all
  choose_interval q pages = visit_all q none pages (record { to_read = []; prev_page = none })

  abbrev pub is_last : List (PageInfo Name) → Bool
  is_last [] = true
  is_last (p ∷ ps) = false

  -- The loop of `Storage::readInTimePoint`, which ends at the first page that it takes. A query's
  -- `from` is the moment.
  unfoldable pub find_point :
      IndexQuery → Option (PageInfo Name) → List (PageInfo Name) → Chosen Name
  unfolding filters_pass
  find_point q prev [] = record { to_read = []; prev_page = none }
  find_point q prev (page ∷ pages) =
      let tp = q.from in
      let hdr = page.header in
      let nothing : Chosen Name = record { to_read = []; prev_page = none } in
      let rest = find_point q (some page) pages in
      if not (filters_pass q hdr)
      then rest
      else if leb hdr.min_time tp && leb hdr.max_time tp && is_last pages
      then push page.name nothing
      else if leb hdr.min_time tp && leb tp hdr.max_time
      then set_prev prev (push page.name nothing)
      else if ltb tp hdr.min_time && ends_by tp prev
      then push_prev prev nothing
      else rest

  unfoldable pub choose_point : IndexQuery → List (PageInfo Name) → Chosen Name
  unfolding find_point
  choose_point q pages = find_point q none pages

  -- `PageManager::getOldesPage`: the page with the last time of all, or with none at all; `none`
  -- where the source throws.
  unfoldable pub oldes_loop : List (PageInfo Name) → ℕ → Option Name → Option Name
  oldes_loop [] max_time found = found
  oldes_loop (p ∷ ps) max_time found =
      let cur_time = p.header.max_time in
      if ltb max_time cur_time || cur_time == 0
      then oldes_loop ps cur_time (some p.name)
      else oldes_loop ps max_time found

  unfoldable pub get_oldes_page : List (PageInfo Name) → Option Name
  unfolding oldes_loop
  get_oldes_page (p ∷ []) = some p.name
  get_oldes_page ps = oldes_loop ps 0 none

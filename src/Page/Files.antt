-- ===== src/Page/Files.antt =====
-- `Page::Create`, `Page::Open` and `Page::ReadHeader` of libnkvdb/page.cpp. A page's file, with those
-- of its window and its index, is the page as it was closed.
pub mod Reopen
mod Tests
use nkvdb.Prelude.{
  ℕ, ◌+◌, ◌*◌, ◌/◌, Bool, true, false, List, [], Option, none, some, not, ◌&&◌, ◌==◌, if◌then◌else◌,
  sub64,
}
use nkvdb.Prelude.Result.{Result, ok, err, exception, ◌>>=◌, ◌>>◌, ensure}
use nkvdb.Meas.{Meas}
use nkvdb.WriteWindow.{WriteWindow}
use nkvdb.Index.{Index, make_index, tree_n}
use nkvdb.Page.{
  Page, Header, InternalMeas, header_bytes, internal_bytes, page_version, init_header,
  load_write_window,
}

-- `indexCacheSize`.
abbrev pub index_cache_size : ℕ
index_cache_size = 1000000

-- `page_size_to_count`.
abbrev pub page_size_to_count : ℕ → ℕ
page_size_to_count fsize = sub64 fsize header_bytes / internal_bytes

-- The index of a new page object: an index file that exists is opened, whose list of records not yet
-- written is then empty.
abbrev pub open_index : Option Page → ℕ → Index
open_index none count = make_index index_cache_size (count / (tree_n * tree_n))
open_index (some p) count = record (p.index) { pending = []; capacity = index_cache_size }

abbrev pub old_window : Option Page → Option (List Meas)
old_window none = none
old_window (some p) = p.window_file

abbrev pub zero_record : InternalMeas
zero_record = record { id = 0; time = 0; source = 0; flag = 0; size = 0; value_pos = 0 }

-- `Create`: the page's file is made anew, those of its window and its index stay if they exist.
unfoldable pub create : ℕ → Option Page → Page
create fsize old = record {
  header = record (init_header fsize) { is_open = true };
  records = λ i. zero_record;
  bytes = λ a. 0;
  window = [];
  window_file = old_window old;
  index = open_index old (page_size_to_count fsize / 10);
  mapped = true;
}

-- `ReadHeader`.
unfoldable pub read_header : Option Page → Result Header
read_header none = err exception
read_header (some p) = ok p.header

-- Mapping a file that does not exist throws.
abbrev pub map_file : Option Page → Result Page
map_file none = err exception
map_file (some p) = ok p

-- The page object of `Open`, once the file is mapped.
unfoldable pub opened : Bool → Page → Page
unfolding load_write_window
opened read_only p = record p {
  header = record (p.header) {
    is_open = true;
    readers_count = (if read_only then p.header.readers_count + 1 else p.header.readers_count);
  };
  window = load_write_window p.window_file [];
  index = open_index (some p) (page_size_to_count p.header.size / 20);
  mapped = true;
}

-- `Open`.
unfoldable pub open_page : Bool → Option Page → Result Page
unfolding read_header opened
open_page read_only file = do
  if read_only then ok tt else (read_header file >>= λ hdr. ensure (not hdr.is_open) exception)
  p ← map_file file
  ensure (p.header.version == page_version) exception
  ok (opened read_only p)

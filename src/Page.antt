-- ===== src/Page.antt =====
-- include/page.h and libnkvdb/page.cpp: a page, which is a mapped file with a header, records of
-- measurements from its front and their value bytes from its back, its write window and its index.
pub mod Append
pub mod Rounds
pub mod Layout
pub mod Bounds
pub mod Coverage
pub mod Hidden
pub mod Files
mod Tests
use nkvdb.Prelude.{
  ℕ, zero, suc, ◌+◌, ◌-◌, ◌*◌, ◌/◌, ◌%◌, Bool, true, false, List, [], ◌∷◌, ◌++◌, ◌&&◌, ◌||◌, Option,
  none, some, length, get_or, take, replicate, leb, ltb, ◌==◌, if◌then◌else◌, in_interval, min, max,
  word, sub64,
}
use nkvdb.Prelude.Result.{Result, ok, err, undefined, ◌>>=◌}
use nkvdb.Bloom.{bloom_add}
use nkvdb.Meas.{Meas, empty, set_value}
use nkvdb.WriteWindow.{WriteWindow, update, update_all}
use nkvdb.Index.{Index, flush}

-- `sizeof` of `Page::Header`, `Meas` and `InternalMeas` with eight-byte words.
abbrev pub header_bytes : ℕ
header_bytes = 224

abbrev pub meas_bytes : ℕ
meas_bytes = 56

abbrev pub internal_bytes : ℕ
internal_bytes = 48

pub record Header : Type 0 where
  pub version : ℕ
  pub is_open : Bool
  pub readers_count : ℕ
  pub min_max_init : Bool
  pub min_time : ℕ
  pub max_time : ℕ
  pub write_pos : ℕ
  pub write_value_pos : ℕ
  pub size : ℕ
  pub write_window_size : ℕ
  pub id_fltr : ℕ
  pub flag_fltr : ℕ
  pub src_fltr : ℕ

pub record InternalMeas : Type 0 where
  pub id : ℕ
  pub time : ℕ
  pub source : ℕ
  pub flag : ℕ
  pub size : ℕ
  pub value_pos : ℕ

-- `records i` is `m_data_begin[i]` and `bytes a` is `m_raw_data[a]`; `window_file` is the content
-- of the .pagew file, and `mapped` says that `m_file` and `m_region` are not null.
pub record Page : Type 0 where
  pub header : Header
  pub records : ℕ → InternalMeas
  pub bytes : ℕ → ℕ
  pub window : WriteWindow
  pub window_file : Option (List Meas)
  pub index : Index
  pub mapped : Bool

-- `HeaderIntervalCheck`.
unfoldable pub header_interval_check : ℕ → ℕ → Header → Bool
header_interval_check from to hdr =
    in_interval from to hdr.min_time || in_interval from to hdr.max_time

-- `page_version`.
abbrev pub page_version : ℕ
page_version = 3

-- `initHeader`, for a file of `size` bytes.
unfoldable pub init_header : ℕ → Header
init_header size = record {
  version = page_version;
  is_open = false;
  readers_count = 0;
  min_max_init = false;
  min_time = 0;
  max_time = 0;
  write_pos = 0;
  write_value_pos = size;
  size = size;
  write_window_size = 0;
  id_fltr = 0;
  flag_fltr = 0;
  src_fltr = 0;
}

-- `updateMinMax`.
unfoldable pub update_min_max : ℕ → Header → Header
update_min_max time h =
    if h.min_max_init
    then record h { min_time = min time h.min_time; max_time = max time h.max_time }
    else record h { min_max_init = true; min_time = time; max_time = time }

-- `isFull`: the difference of two pointers, taken for a `size_t`.
unfoldable pub is_full : Page → Bool
is_full p =
    ltb (sub64 p.header.write_value_pos ((header_bytes + meas_bytes * p.header.write_pos) % word))
      meas_bytes

-- `capacity`.
unfoldable pub capacity : Page → ℕ
capacity p =
    sub64 p.header.size ((header_bytes + meas_bytes * p.header.write_pos) % word) / meas_bytes

-- `memcpy` into the mapped file, and out of it.
unfoldable pub write_bytes : ℕ → ℕ → List ℕ → (ℕ → ℕ) → ℕ → ℕ
write_bytes at n src bytes a = if leb at a && ltb a (at + n) then get_or src (a - at) 0 else bytes a

unfoldable pub read_bytes : ℕ → ℕ → (ℕ → ℕ) → List ℕ
read_bytes at zero bytes = []
read_bytes at (suc n) bytes = bytes at ∷ read_bytes (at + 1) n bytes

-- A record and its value's bytes, as a measurement. The value goes through an `int64_t`, which more
-- than eight bytes would overrun.
unfoldable pub load : InternalMeas → (ℕ → ℕ) → Result Meas
unfolding read_bytes set_value
load im bytes =
    let raw = read_bytes im.value_pos im.size bytes ++ replicate (8 - im.size) 0 in
    let result = record empty {
      id = im.id;
      time = im.time;
      source = im.source;
      flag = im.flag;
      size = im.size;
    } in
    if ltb 8 im.size then err undefined else elim (set_value raw result) [
      | none ↦ err undefined
      | some r ↦ ok (record r { size = im.size })
    ]

-- `read`, into an empty measurement.
unfoldable pub read : ℕ → Page → Result (Option Meas)
read position p =
    let found = load (p.records position) p.bytes >>= λ r. ok (some r) in
    if p.header.write_pos == 0
    then ok none
    else if leb p.header.write_pos position
    then ok none
    else found

-- `flushWriteWindow`, which leaves an old file alone when the window is empty.
unfoldable pub flush_write_window : Page → Page
flush_write_window p = record p {
  header = record (p.header) { write_window_size = length p.window };
  window_file = (if length p.window == 0 then p.window_file else some p.window);
}

-- `loadWriteWindow`: the measurements of the file, and at its end one that was not read.
unfoldable pub load_write_window : Option (List Meas) → WriteWindow → WriteWindow
load_write_window none ww = ww
load_write_window (some ms) ww = update empty (update_all ms ww)

-- `close`.
unfoldable pub close : ℕ → Page → Result Page
unfolding flush_write_window
close fuel p =
    let p' = flush_write_window p in
    let closed = do
      ix ← flush fuel p'.index
      ok (record p' {
        index = ix;
        header = record (p'.header) { is_open = false; readers_count = 0 };
        mapped = false;
      })
    in if p.mapped then closed else ok p

-- `readComplete`.
unfoldable pub read_complete : ℕ → Page → Result Page
unfolding close
read_complete fuel p =
    let p' = record p {
      header = record (p.header) { readers_count = p.header.readers_count - 1 };
    } in
    if p.header.readers_count == 0
    then ok p
    else if p'.header.readers_count == 0
    then close fuel p'
    else ok p'

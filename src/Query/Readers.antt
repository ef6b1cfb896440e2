-- ===== src/Query/Readers.antt =====
-- libnkvdb/readers.cpp: the two readers of a page; and the functions of libnkvdb/page.cpp that
-- make them.
pub mod Runs
use nkvdb.Prelude.{
  ℕ, zero, suc, ◌+◌, Bool, true, false, List, [], ◌∷◌, ◌++◌, ◌&&◌, not, Option, none, some, ltb,
  leb, ◌==◌, if◌then◌else◌, select, in_interval,
}
use nkvdb.Prelude.Result.{Result, ok, err, exception, undefined, no_fuel, ◌>>=◌}
use nkvdb.Meas.{Meas}
use nkvdb.WriteWindow.{WriteWindow}
use nkvdb.Index.{IndexRecord, IndexQuery, find_in_index}
use nkvdb.Page.{Page, read}
use nkvdb.Query.{Selection, check_value_flags, time_point_read, is_empty}

-- `PageReaderInterval`; `page` is the page that it reads, whose index a query flushes.
pub record IntervalReader : Type 0 where
  pub page : Page
  pub sel : Selection
  pub prev_ww : WriteWindow
  pub from : ℕ
  pub to : ℕ
  pub is_window_reader : Bool
  pub read_pos_list : List (ℕ × ℕ)
  pub cur_pos_begin : ℕ
  pub cur_pos_end : ℕ
  pub window_read_end : Bool
  pub values_in_point : Bool

abbrev pub any : Selection
any = record { ids = []; source = 0; flag = 0 }

-- The constructor.
abbrev pub make_reader : Page → IntervalReader
make_reader p = record {
  page = p;
  sel = any;
  prev_ww = [];
  from = 0;
  to = 0;
  is_window_reader = false;
  read_pos_list = [];
  cur_pos_begin = 0;
  cur_pos_end = 0;
  window_read_end = false;
  values_in_point = false;
}

abbrev pub add_read_pos : ℕ → ℕ → IntervalReader → IntervalReader
add_read_pos begin end r = record r { read_pos_list = r.read_pos_list ++ (begin, end) ∷ [] }

unfoldable pub is_end : IntervalReader → Bool
is_end r =
    if r.is_window_reader
    then r.window_read_end
    else elim r.read_pos_list [ [] ↦ r.cur_pos_begin == r.cur_pos_end | x ∷ xs ↦ false ]

-- The values at the first moment, which are read once.
unfoldable pub read_point : ℕ → IntervalReader → Result (IntervalReader × List Meas)
read_point fuel r =
    let point = time_point_read fuel r.sel r.prev_ww r.from r.page >>= λ o.
    ok (record r { page = o.1; values_in_point = true }, o.0) in
    if leb r.page.header.min_time r.from && not r.values_in_point then point else ok (r, [])

-- The next pair of positions, when the current one is used up. `front` of an empty list is undefined.
unfoldable pub next_pos : IntervalReader → Result IntervalReader
next_pos r = elim (r.cur_pos_begin == r.cur_pos_end) [
  | false ↦ ok r
  | true ↦ elim r.read_pos_list [
    | [] ↦ err undefined
    | pos ∷ rest ↦
        ok (record r { read_pos_list = rest; cur_pos_begin = pos.0; cur_pos_end = pos.1 })
  ]
]

-- Both tests of a measurement that was read.
unfoldable pub passes : Selection → ℕ → ℕ → Meas → Bool
passes sel from to m = in_interval from to m.time && check_value_flags sel m

-- At most `rounds` positions from `i` on: where the loop ended, and what it adds to the output.
unfoldable pub read_run : (Meas → Bool) → ℕ → ℕ → ℕ → Page → Result (ℕ × List Meas)
read_run pass zero i end p = ok (i, [])
read_run pass (suc rounds) i end p =
    let more : Meas → Result (ℕ × List Meas) = λ m.
      read_run pass rounds (i + 1) end p >>= λ o. ok (o.0, (if pass m then m ∷ o.1 else o.1)) in
    elim (i == end) [
      | true ↦ ok (i, [])
      | false ↦ read i p >>= λ found. elim found [ none ↦ err exception | some m ↦ more m ]
    ]

-- `readNext`, for `PageReader::ReadSize` measurements; `fuel` is for the index.
unfoldable pub read_next : ℕ → ℕ → IntervalReader → Result (IntervalReader × List Meas)
unfolding is_end read_point next_pos read_run
read_next fuel read_size r =
    let window : IntervalReader × List Meas =
      (record r { window_read_end = true }, select (check_value_flags r.sel) r.page.window) in
    let rest = do
      s ← read_point fuel r
      r' ← next_pos s.0
      o ← read_run (passes r'.sel r'.from r'.to) read_size r'.cur_pos_begin r'.cur_pos_end r'.page
      ok (record r' { cur_pos_begin = o.0 }, s.1 ++ o.1)
    in if is_end r
      then ok (r, [])
      else if ltb r.page.header.max_time r.from
      then ok window
      else rest

-- `Reader::readAll`: at most `rounds` calls of `readNext`.
unfoldable pub read_all : ℕ → ℕ → ℕ → IntervalReader → Result (IntervalReader × List Meas)
unfolding read_next
read_all zero fuel read_size r = if is_end r then ok (r, []) else err no_fuel
read_all (suc rounds) fuel read_size r =
    let more = do
      s ← read_next fuel read_size r
      t ← read_all rounds fuel read_size s.0
      ok (t.0, s.1 ++ t.1)
    in if is_end r then ok (r, []) else more

-- `PageReader_TimePoint`.
pub record TimePointReader : Type 0 where
  pub page : Page
  pub sel : Selection
  pub prev_ww : WriteWindow
  pub time_point : ℕ
  pub window_read_end : Bool

unfoldable pub read_next_point : ℕ → TimePointReader → Result (TimePointReader × List Meas)
read_next_point fuel r =
    let point = time_point_read fuel r.sel r.prev_ww r.time_point r.page >>= λ o.
    ok (record r { page = o.1; window_read_end = true }, o.0) in
    if r.window_read_end then ok (r, []) else point

-- `Page::readInTimePoint`, with none for a null pointer.
unfoldable pub read_in_time_point : Selection → ℕ → Page → Option TimePointReader
read_in_time_point sel time_point p =
    if p.header.write_pos == 0
    then none
    else some (record {
      page = p;
      sel = sel;
      prev_ww = [];
      time_point = time_point;
      window_read_end = false;
    })

abbrev pub add_records : List IndexRecord → IntervalReader → IntervalReader
add_records [] r = r
add_records (rec ∷ recs) r = add_records recs (add_read_pos rec.pos (rec.pos + rec.count) r)

-- `Page::readInterval`, with `readAll` and `readFromToPos`.
unfoldable pub read_interval : ℕ → Selection → ℕ → ℕ → Page → Result (Option IntervalReader)
read_interval fuel sel from to p =
    let h = p.header in
    let base = record (make_reader p) { sel = sel; from = from; to = to } in
    let whole = add_read_pos 0 h.write_pos in
    let all = record (whole (make_reader p)) { from = from; to = to } in
    let q : IndexQuery = record {
      ids = sel.ids;
      source = sel.source;
      flag = sel.flag;
      from = from;
      to = to;
    } in
    let searched = find_in_index fuel q p.index >>= λ s.
    ok (some (add_records s.0 (record base { page = record p { index = s.1 } }))) in
    if h.write_pos == 0
    then ok none
    else if ltb h.max_time from
    then ok (some (record base { is_window_reader = true }))
    else if leb from h.min_time && leb h.max_time to
    then (if is_empty sel.ids && sel.source == 0 && sel.flag == 0
        then ok (some all)
        else ok (some (whole base)))
    else searched

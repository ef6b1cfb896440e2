-- ===== src/Query.antt =====
-- The queries of libnkvdb/page.cpp: `backwardRead`, and what class PageReader does for the readers.
pub mod Readers
pub mod Whole
pub mod Stored
mod Tests
use nkvdb.Prelude.{
  ℕ, zero, suc, ◌+◌, ◌-◌, Bool, true, false, List, [], ◌∷◌, ◌++◌, ◌&&◌, ◌||◌, not, Option, none,
  some, ltb, ◌==◌, if◌then◌else◌, select,
}
use nkvdb.Prelude.Result.{Result, ok, err, exception, ◌>>=◌}
use nkvdb.Meas.{Meas}
use nkvdb.WriteWindow.{WriteWindow}
use nkvdb.Index.{IndexRecord, IndexQuery, zero_record, find_in_index}
use nkvdb.Page.{Page, read}

-- `ids`, `source` and `flag` of a reader: no ids stand for all, and so do zeros.
pub record Selection : Type 0 where
  pub ids : List ℕ
  pub source : ℕ
  pub flag : ℕ

-- `std::find`.
unfoldable pub contains : List ℕ → ℕ → Bool
contains [] id = false
contains (x ∷ xs) id = if x == id then true else contains xs id

abbrev pub is_empty : List ℕ → Bool
is_empty [] = true
is_empty (x ∷ xs) = false

abbrev pub flag_check : Selection → Meas → Bool
flag_check sel m = sel.flag == 0 || m.flag == sel.flag

abbrev pub source_check : Selection → Meas → Bool
source_check sel m = sel.source == 0 || m.source == sel.source

-- `PageReader::checkValueFlags`.
unfoldable pub check_value_flags : Selection → Meas → Bool
unfolding contains
check_value_flags sel m =
    if not (flag_check sel m)
    then false
    else if not (source_check sel m)
    then false
    else is_empty sel.ids || contains sel.ids m.id

-- A `std::map<Id, Meas>`, as a list in the order of the ids.
abbrev pub Values : Type 0
Values = List (ℕ × Meas)

unfoldable pub find_value : ℕ → Values → Option Meas
find_value id [] = none
find_value id (kv ∷ kvs) = if kv.0 == id then some kv.1 else find_value id kvs

-- `readed_values[id] = m`, and `insert` where there is none.
unfoldable pub put_value : ℕ → Meas → Values → Values
put_value id m [] = (id, m) ∷ []
put_value id m (kv ∷ kvs) =
    if ltb id kv.0
    then (id, m) ∷ kv ∷ kvs
    else if kv.0 == id
    then (id, m) ∷ kvs
    else kv ∷ put_value id m kvs

-- What `backwardRead` does with one measurement. Its test of the ids takes those not asked for.
unfoldable pub note_value : Selection → ℕ → Meas → Values → Values
unfolding find_value put_value contains
note_value sel time_point m vs =
    let ids_check = is_empty sel.ids || not (contains sel.ids m.id) in
    let noted : Values = elim (find_value m.id vs) [
      | none ↦
          if flag_check sel m && source_check sel m && ids_check then put_value m.id m vs else vs
      | some old ↦ if ltb old.time m.time then put_value m.id m vs else vs
    ] in
    if ltb m.time time_point then noted else vs

-- The positions of one index record, from its last down to its first: `count` of them.
unfoldable pub read_back_record : Selection → ℕ → ℕ → ℕ → Page → Values → Result Values
unfolding note_value
read_back_record sel time_point pos zero p vs = ok vs
read_back_record sel time_point pos (suc count) p vs = do
  found ← read (pos + count) p
  elim found [
    | none ↦ err exception
    | some m ↦ read_back_record sel time_point pos count p (note_value sel time_point m vs)
  ]

-- An index record of no positions at 0 makes the loop begin at the greatest number, where the read
-- fails; anywhere else it has no round.
unfoldable pub read_back_all : Selection → ℕ → List IndexRecord → Page → Values → Result Values
unfolding read_back_record
read_back_all sel time_point [] p vs = ok vs
read_back_all sel time_point (rec ∷ recs) p vs =
    if rec.pos == 0 && rec.count == 0
    then err exception
    else read_back_record sel time_point rec.pos rec.count p vs
      >>= read_back_all sel time_point recs p

abbrev pub reverse_onto : List IndexRecord → List IndexRecord → List IndexRecord
reverse_onto [] acc = acc
reverse_onto (rec ∷ recs) acc = reverse_onto recs (rec ∷ acc)

abbrev pub values_of : Values → List Meas
values_of [] = []
values_of (kv ∷ kvs) = kv.1 ∷ values_of kvs

-- The records that `backwardRead` goes through, and the page, whose index was flushed.
unfoldable pub back_records : ℕ → Selection → ℕ → Page → Result (List IndexRecord × Page)
back_records fuel sel time_point p =
    let q : IndexQuery = record {
      ids = sel.ids;
      source = sel.source;
      flag = sel.flag;
      from = time_point;
      to = p.header.max_time;
    } in
    let searched =
      find_in_index fuel q p.index >>= λ r. ok (reverse_onto r.0 [], record p { index = r.1 }) in
    if time_point == p.header.min_time
    then ok (record zero_record { count = p.header.write_pos } ∷ [], p)
    else searched

-- `backwardRead`.
unfoldable pub backward_read : ℕ → Selection → ℕ → Page → Result (List Meas × Page)
unfolding back_records read_back_all
backward_read fuel sel time_point p = do
  r ← back_records fuel sel time_point p
  vs ← read_back_all sel time_point r.0 r.1 []
  ok (values_of vs, r.1)

abbrev pub has_id : List Meas → ℕ → Bool
has_id [] id = false
has_id (m ∷ ms) id = if m.id == id then true else has_id ms id

-- `timePointRead`: what it adds to the output.
unfoldable pub time_point_read : ℕ → Selection → WriteWindow → ℕ → Page → Result (List Meas × Page)
unfolding backward_read check_value_flags
time_point_read fuel sel prev_ww tp p =
    let stands : Meas → Bool = λ m. not (m.time == 0) && check_value_flags sel m in
    let older = do
      r ← backward_read fuel sel tp p
      let others = select (λ m. stands m && not (has_id r.0 m.id)) prev_ww
      ok (others ++ r.0, r.1)
    in if ltb p.header.max_time tp then ok (select stands p.window, p) else older

-- ===== src/Query/Stored.antt =====
-- The array append and `Page::readInterval` of libnkvdb/page.cpp, one after the other.
use nkvdb.Prelude.{
  ℕ, suc, ◌+◌, ◌≤◌, ◌<◌, ◌≡◌, List, All, arith, ap, sym, ◌∙◌, true, some, length, get_or, select,
}
use nkvdb.Prelude.Result.{ok, ok-injective}
use nkvdb.Meas.{Meas, AppendResult, empty}
use nkvdb.Page.{Page, read}
use nkvdb.Page.Append.{append_array}
use nkvdb.Page.Coverage.{append_array-covers}
use nkvdb.Page.Layout.{IsSound}
use nkvdb.Page.Layout.ReadBack.{read_back}
use nkvdb.Page.Layout.Fill.{HasSize, FitsSize, append_array-read}
use nkvdb.Page.Bounds.{IsFiltered, IsTimed}
use nkvdb.Page.Bounds.Batches.{IsSorted, append_array-IsTimed}
use nkvdb.Query.{Selection, check_value_flags}
use nkvdb.Query.Readers.{IntervalReader, is_end, read_all, read_interval}
use nkvdb.Query.Readers.Runs.{items}
use nkvdb.Query.Whole.{read_interval-whole}

no_records-IsFiltered : (p : Page) → p.header.write_pos ≡ 0 → IsFiltered p
no_records-IsFiltered p z = record {
  ids = λ i h. absurd (omega arith);
  flags = λ i h. absurd (omega arith);
  sources = λ i h. absurd (omega arith);
}

no_records-IsTimed : (p : Page) → p.header.write_pos ≡ 0 → IsTimed p
no_records-IsTimed p z = record {
  enclosed = λ i h. absurd (omega arith);
  init = λ h. absurd (omega arith);
}

-- An array of measurements sorted by time, with values of `s` bytes, `s` at most eight, is appended
-- to a sound page with no measurements whose free bytes they fill up to less than one record, and
-- at least one is written; the index has room for their records. A query over an interval that begins before the page's first time and
-- reaches to its last is answered, when it is read to the end, by the measurements written which
-- pass the query's ids, source and flag, in their order; the read takes at most one call for each
-- and one more.
pub append_array-read_interval :
    (s fuel : ℕ) (begin : List Meas) (p q : Page) (r : AppendResult) (sel : Selection)
    (from to rounds size : ℕ)
    → append_array fuel begin p ≡ ok (q, r)
    → p.header.write_pos ≡ 0
    → length p.index.pending + length begin < p.index.capacity
    → s ≤ 8
    → All (HasSize s) begin
    → IsSorted begin
    → IsSound p
    → FitsSize s p
    → 0 < r.writed
    → from < q.header.min_time
    → q.header.max_time ≤ to
    → 1 + r.writed ≤ rounds
    → (reader : IntervalReader) × (read_interval fuel sel from to q ≡ ok (some reader))
      × (ended : IntervalReader) × (read_all rounds fuel (suc size) reader
          ≡ ok (
            ended,
            select
                (check_value_flags sel)
                (items (λ k. read_back (get_or begin k empty)) 0 r.writed),
          ))
      × (is_end ended ≡ true)
append_array-read_interval s fuel begin p q r sel from to rounds size e z w small sizes sorted sound
      fits pos early late h =
    let (q', r', e', _, _, w', _) = append_array-covers s fuel begin p small sizes sound fits w in
    let same = ok-injective (q', r') (q, r) (sym e' ∙ e) in
    let w'' : q.header.write_pos ≡ r.writed =
      ap (λ (x : Page × AppendResult). x.0.header.write_pos) (sym same)
      ∙ w'
      ∙ ap (λ (x : Page × AppendResult). p.header.write_pos + x.1.writed) same
      ∙ omega arith in
    let (_, _, t) =
      append_array-IsTimed s fuel begin p q r e small sizes sound fits sorted
        (no_records-IsFiltered p z) (no_records-IsTimed p z) in
    let (_, new, _) = append_array-read s fuel begin p q r e small sizes sound fits in
    let readable : (i : ℕ)
        → i < q.header.write_pos
        → read i q ≡ ok (some (read_back (get_or begin i empty))) =
      λ i g. ap (λ j. read j q) (omega arith) ∙ new i (omega arith) in
    rw (sym w'') (
      read_interval-whole q (λ k. read_back (get_or begin k empty)) from to fuel size t readable
        (omega arith) early late sel rounds (omega arith))

-- ===== src/Query/Whole.antt =====
-- `Page::readInterval` of libnkvdb/page.cpp over an interval that encloses the page's times, and
-- `Reader::readAll` of libnkvdb/meas.cpp over its answer.
use nkvdb.Prelude.{
  ◌&&◌, Bool-cases, inl, inr, ℕ, zero, suc, ◌+◌, ◌≤◌, ◌<◌, ◌≡◌, refl, ap, ◌∙◌, ◌-◌, Bool, true,
  List, [], ◌∷◌, ◌++◌, some, arith, select, ◌==◌,
}
use nkvdb.Prelude.Result.{ok}
use nkvdb.Meas.{Meas, set_value}
use nkvdb.Page.{Page, read, load}
use nkvdb.Page.Bounds.{IsTimed}
use nkvdb.Query.{Selection, is_empty, check_value_flags}
use nkvdb.Query.Readers.{IntervalReader, is_end, read_all, read_interval, passes, make_reader, any}
use nkvdb.Query.Readers.Runs.{items, IsRunning, read_all_lem}

time_of_read : (p : Page) (i : ℕ) (m : Meas) → read i p ≡ ok (some m) → m.time ≡ (p.records i).time
unfolding read load set_value
time_of_read p i m h = ground arith

module _ (c : ℕ → Meas) (n from to : ℕ) (sel : Selection)
    (within : (i : ℕ) → i < n → (from ≤ (c i).time) × ((c i).time ≤ to)) where
  select-passes :
      (i k : ℕ)
      → i + k ≤ n
      → select (passes sel from to) (items c i k ++ [])
        ≡ select (check_value_flags sel) (items c i k)
  unfolding passes
  select-passes i zero h = refl
  select-passes i (suc k) h =
      ground (arith, within i (omega arith), select-passes (i + 1) k (omega arith))

select_same :
    (p q : Meas → Bool) → ((m : Meas) → p m ≡ q m) → (ms : List Meas) → select p ms ≡ select q ms
select_same p q h [] = refl
select_same p q h (m ∷ ms) = ground (arith, h m, select_same p q h ms)

check_any :
    (sel : Selection) (m : Meas)
    → (is_empty sel.ids && sel.source == 0 && sel.flag == 0) ≡ true
    → check_value_flags any m ≡ check_value_flags sel m
unfolding check_value_flags
check_any sel m h = ground (arith, h)

-- The reader of all positions.
abbrev whole_reader : Selection → ℕ → ℕ → Page → IntervalReader
whole_reader sel from to p = record (make_reader p) {
  sel = sel;
  from = from;
  to = to;
  read_pos_list = (0, p.header.write_pos) ∷ [];
}

module _ (p : Page) (c : ℕ → Meas) (from to fuel size : ℕ) (timed : IsTimed p)
    (readable : (i : ℕ) → i < p.header.write_pos → read i p ≡ ok (some (c i)))
    (some_in : 0 < p.header.write_pos) (early : from < p.header.min_time)
    (late : p.header.max_time ≤ to) where
  header_in_order : p.header.min_time ≤ p.header.max_time
  header_in_order = omega (arith, timed.enclosed 0 some_in)

  within : (i : ℕ) → i < p.header.write_pos → (from ≤ (c i).time) × ((c i).time ≤ to)
  within i h = ground (arith, timed.enclosed i h, time_of_read p i (c i) (readable i h))

  IsRunning-whole_reader :
      (sel : Selection) → IsRunning (whole_reader sel from to p) c p.header.write_pos
  IsRunning-whole_reader sel = record {
    by_positions = refl;
    in_time = ground (arith, header_in_order);
    no_point = ground arith;
    readable = readable;
  }

  whole_answer :
      (sel : Selection) (rounds : ℕ)
      → 1 + p.header.write_pos ≤ rounds
      → (q : IntervalReader) × (read_all rounds fuel (suc size) (whole_reader sel from to p)
          ≡ ok (q, select (check_value_flags sel) (items c 0 p.header.write_pos)))
        × (is_end q ≡ true)
  whole_answer sel rounds h =
      let n = p.header.write_pos in
      let z : n - 0 ≡ n = omega arith in
      let (q, e, f) =
        read_all_lem (whole_reader sel from to p) c n fuel size (IsRunning-whole_reader sel) rounds
          ((0, n) ∷ []) 0 0 0 refl (omega arith) ((omega arith, omega arith), tt) (omega arith) in
      (
        q,
        e ∙ ap (λ ms. ok (q, ms)) (rw z (select-passes c n from to sel within 0 n (omega arith))),
        f,
      )

  whole_reader_lem :
      (sel : Selection)
      → (r : Selection) × (read_interval fuel sel from to p ≡ ok (some (whole_reader r from to p)))
        × ((ms : List Meas) → select (check_value_flags r) ms ≡ select (check_value_flags sel) ms)
  unfolding read_interval
  whole_reader_lem sel = elim (Bool-cases (is_empty sel.ids && sel.source == 0 && sel.flag == 0)) [
    | inl h ↦ (
      any,
      ground (arith, h, header_in_order),
      select_same (check_value_flags any) (check_value_flags sel) (λ m. check_any sel m h),
    )
    | inr h ↦ (sel, ground (arith, h, header_in_order), λ ms. refl)
  ]

  -- A query over an interval that begins before the first time of a page with measurements and
  -- reaches to its last, on a page whose header encloses the times of its records and where
  -- every position can be read, answers with a reader; and `readAll` of that reader comes to its
  -- end within one call for each measurement and one more, whatever the read size above 0, and gives the
  -- measurements of the page that pass the ids, source and flag, all of them, in order.
  pub read_interval-whole :
      (sel : Selection) (rounds : ℕ)
      → 1 + p.header.write_pos ≤ rounds
      → (r : IntervalReader) × (read_interval fuel sel from to p ≡ ok (some r))
        × (q : IntervalReader) × (read_all rounds fuel (suc size) r
            ≡ ok (q, select (check_value_flags sel) (items c 0 p.header.write_pos)))
        × (is_end q ≡ true)
  read_interval-whole sel rounds h =
      let (s, e, same) = whole_reader_lem sel in
      let (q, a, f) = whole_answer s rounds h in
      (
        whole_reader s from to p,
        e,
        q,
        a ∙ ap (λ ms. ok (q, ms)) (same (items c 0 p.header.write_pos)),
        f,
      )

-- ===== src/Query/Readers/Runs.antt =====
-- What the interval reader of libnkvdb/readers.cpp reads from its ranges of positions.
use nkvdb.Prelude.{
  ℕ, zero, suc, ◌+◌, ◌-◌, ◌≤◌, ◌<◌, ◌≡◌, Bool, true, false, not, ◌&&◌, List, [], ◌∷◌, ◌++◌, some,
  arith, sym, select, select-append, All, leb, ltb,
}
use nkvdb.Prelude.Result.{ok}
use nkvdb.Meas.{Meas}
use nkvdb.Page.{Page, read}
use nkvdb.Query.Readers.{
  IntervalReader, is_end, next_pos, read_point, read_run, read_next, read_all, passes,
}

-- The `k` elements of a sequence from `i` on, and those of a list of ranges.
abbrev pub items : (ℕ → Meas) → ℕ → ℕ → List Meas
items c i zero = []
items c i (suc k) = c i ∷ items c (i + 1) k

abbrev pub span_items : (ℕ → Meas) → List (ℕ × ℕ) → List Meas
span_items c [] = []
span_items c (s ∷ l) = items c s.0 (s.1 - s.0) ++ span_items c l

-- An upper bound of the calls of `readNext` that a list of ranges takes.
abbrev pub calls : List (ℕ × ℕ) → ℕ
calls [] = 0
calls (s ∷ l) = 1 + (s.1 - s.0) + calls l

-- Ranges of positions below `n`.
abbrev pub Fits : ℕ → ℕ × ℕ → Type 0
Fits n s = (s.0 ≤ s.1) × (s.1 ≤ n)

-- The rounds of a loop that has `rounds` of them and `k` elements to go through.
abbrev pub met : ℕ → ℕ → ℕ
met zero k = 0
met (suc rounds) zero = 0
met (suc rounds) (suc k) = suc (met rounds k)

pub met_le : (rounds k : ℕ) → met rounds k ≤ k
met_le zero k = omega arith
met_le (suc rounds) zero = omega arith
met_le (suc rounds) (suc k) = omega (arith, met_le rounds k)

items_rest :
    (c : ℕ → Meas) (i m k : ℕ) (ys : List Meas)
    → m ≤ k
    → items c i m ++ (items c (i + m) (k - m) ++ ys) ≡ items c i k ++ ys
items_rest c i zero k ys h =
    let e : i + 0 ≡ i = omega arith in let z : k - 0 ≡ k = omega arith in rw (e, z)
items_rest c i (suc m) zero ys h = absurd (omega arith)
items_rest c i (suc m) (suc k) ys h =
    let e : i + suc m ≡ i + 1 + m = omega arith in
    let z : suc k - suc m ≡ k - m = omega arith in
    rw (e, z, items_rest c (i + 1) m k ys (omega arith))

module _ (c : ℕ → Meas) (n : ℕ) (p : Page) (pass : Meas → Bool)
    (readable : (i : ℕ) → i < n → read i p ≡ ok (some (c i))) where
  pub read_run_lem :
      (rounds i k e : ℕ)
      → e ≡ i + k
      → e ≤ n
      → read_run pass rounds i e p ≡ ok (i + met rounds k, select pass (items c i (met rounds k)))
  unfolding read_run
  read_run_lem zero i k e q h = let z : i + 0 ≡ i = omega arith in rw z
  read_run_lem (suc rounds) i zero e q h = ground arith
  read_run_lem (suc rounds) i (suc k) e q h =
      ground (arith, readable i (omega arith), read_run_lem rounds (i + 1) k e (omega arith) h)

-- The reader `r` at a place: the ranges left, and the positions left of the current one.
abbrev pub at_place : IntervalReader → List (ℕ × ℕ) → ℕ → ℕ → IntervalReader
at_place r l i e = record r { read_pos_list = l; cur_pos_begin = i; cur_pos_end = e }

-- A reader that is past its values at the first moment, over a page whose measurements are `c`.
pub record IsRunning (r : IntervalReader) (c : ℕ → Meas) (n : ℕ) : Type 0 where
  pub by_positions : r.is_window_reader ≡ false
  pub in_time : ltb r.page.header.max_time r.from ≡ false
  pub no_point : (leb r.page.header.min_time r.from && not r.values_in_point) ≡ false
  pub readable : (i : ℕ) → i < n → read i r.page ≡ ok (some (c i))

abbrev pub chosen : IntervalReader → List Meas → List Meas
chosen r ms = select (passes r.sel r.from r.to) ms

module _ (r : IntervalReader) (c : ℕ → Meas) (n fuel size : ℕ) (running : IsRunning r c n) where
  read_next_run :
      (l : List (ℕ × ℕ)) (i k e : ℕ)
      → e ≡ i + suc k
      → e ≤ n
      → read_next fuel (suc size) (at_place r l i e)
        ≡ ok (
          at_place r l (i + met (suc size) (suc k)) e,
          chosen r (items c i (met (suc size) (suc k))),
        )
  unfolding read_next is_end read_point next_pos
  read_next_run l i k e q h = ground (
    arith,
    running.by_positions,
    running.in_time,
    running.no_point,
    read_run_lem c n r.page (passes r.sel r.from r.to) running.readable (suc size) i (suc k) e q h,
  )

  read_next_pop :
      (l : List (ℕ × ℕ)) (s : ℕ × ℕ) (i : ℕ)
      → Fits n s
      → read_next fuel (suc size) (at_place r (s ∷ l) i i)
        ≡ ok (
          at_place r l (s.0 + met (suc size) (s.1 - s.0)) s.1,
          chosen r (items c s.0 (met (suc size) (s.1 - s.0))),
        )
  unfolding read_next is_end read_point next_pos
  read_next_pop l s i h = ground (
    arith,
    running.by_positions,
    running.in_time,
    running.no_point,
    read_run_lem c n r.page (passes r.sel r.from r.to) running.readable (suc size) s.0 (s.1 - s.0)
        s.1 (omega arith) (omega arith),
  )

  -- What `readAll` leaves: a reader at its end, and the chosen measurements.
  abbrev Answers : ℕ → IntervalReader → List Meas → Type 0
  Answers rounds start ms =
      (q : IntervalReader) × (read_all rounds fuel (suc size) start ≡ ok (q, chosen r ms))
      × (is_end q ≡ true)

  read_all_more :
      (rounds : ℕ) (start mid : IntervalReader) (ms ns all : List Meas)
      → ms ++ ns ≡ all
      → is_end start ≡ false
      → read_next fuel (suc size) start ≡ ok (mid, chosen r ms)
      → Answers rounds mid ns
      → Answers (suc rounds) start all
  unfolding read_all
  read_all_more rounds start mid ms ns all w h g (q, e, f) =
      (q, ground (arith, h, g, e, sym w, select-append (passes r.sel r.from r.to) ms ns), f)

  read_all_ended :
      (rounds : ℕ) (start : IntervalReader) → is_end start ≡ true → Answers rounds start []
  unfolding read_all
  read_all_ended zero start h = (start, ground (arith, h), h)
  read_all_ended (suc rounds) start h = (start, ground (arith, h), h)

  -- A reader by positions whose ranges can be read, whose interval does not begin past the page's
  -- last time, and whose values at the first moment are read or not asked for, comes to its end
  -- within as many calls of `readNext` as there are positions and ranges left, whatever the read
  -- size above 0; and it gives the measurements at these positions that pass both of its tests,
  -- all of them, in order.
  pub read_all_lem :
      (rounds : ℕ) (l : List (ℕ × ℕ)) (i k e : ℕ)
      → e ≡ i + k
      → e ≤ n
      → All (Fits n) l
      → k + calls l ≤ rounds
      → Answers rounds (at_place r l i e) (items c i k ++ span_items c l)
  unfolding is_end
  read_all_lem zero [] i zero e q h a b =
      read_all_ended zero (at_place r [] i e) (ground (arith, running.by_positions))
  read_all_lem (suc rounds) [] i zero e q h a b =
      read_all_ended (suc rounds) (at_place r [] i e) (ground (arith, running.by_positions))
  read_all_lem (suc rounds) [] i (suc k) e q h a b =
      let m = met (suc size) (suc k) in
      read_all_more rounds (at_place r [] i e) (at_place r [] (i + m) e) (items c i m)
        (items c (i + m) (suc k - m) ++ []) (items c i (suc k) ++ [])
        (items_rest c i m (suc k) [] (met_le (suc size) (suc k)))
        (ground (arith, running.by_positions)) (read_next_run [] i k e q h)
        (read_all_lem rounds [] (i + m) (suc k - m) e (omega (arith, met_le (suc size) (suc k))) h a
          (omega arith))
  read_all_lem (suc rounds) (s ∷ l) i (suc k) e q h a b =
      let m = met (suc size) (suc k) in
      let ys = span_items c (s ∷ l) in
      read_all_more rounds (at_place r (s ∷ l) i e) (at_place r (s ∷ l) (i + m) e) (items c i m)
        (items c (i + m) (suc k - m) ++ ys) (items c i (suc k) ++ ys)
        (items_rest c i m (suc k) ys (met_le (suc size) (suc k)))
        (ground (arith, running.by_positions)) (read_next_run (s ∷ l) i k e q h)
        (read_all_lem rounds (s ∷ l) (i + m) (suc k - m) e
          (omega (arith, met_le (suc size) (suc k))) h a (omega arith))
  read_all_lem (suc rounds) (s ∷ l) i zero e q h a b =
      let k = s.1 - s.0 in
      let m = met (suc size) k in
      let ys = span_items c l in
      let p : e ≡ i = omega arith in
      rw p (
        read_all_more rounds (at_place r (s ∷ l) i i) (at_place r l (s.0 + m) s.1) (items c s.0 m)
          (items c (s.0 + m) (k - m) ++ ys) (items c s.0 k ++ ys)
          (items_rest c s.0 m k ys (met_le (suc size) k)) (ground (arith, running.by_positions))
          (read_next_pop l s i a.0)
          (read_all_lem rounds l (s.0 + m) (k - m) s.1 (omega (arith, met_le (suc size) k, a.0.0))
            (a.0.1) (a.1) (omega arith)))
  read_all_lem zero (s ∷ l) i k e q h a b = absurd (omega arith)
  read_all_lem zero l i (suc k) e q h a b = absurd (omega arith)

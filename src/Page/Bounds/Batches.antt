-- ===== src/Page/Bounds/Batches.antt =====
-- The times and filters of the header after `append(PMeas, size_t)` of libnkvdb/page.cpp.
use nkvdb.Prelude.{
  ℕ, suc, ◌+◌, ◌-◌, ◌≤◌, ◌<◌, ◌≡◌, refl, List, [], ◌∷◌, arith, Bool-cases, inl, inr, ◌==◌,
  if◌then◌else◌, ◌∙◌, get_or, length, dec_lt, All, sym, ap,
}
use mathlib.Core.Path.{subst}
use nkvdb.Prelude.Result.{ok, >>=-eq-ok, ok-injective}
use nkvdb.Index.{Index}
use nkvdb.Meas.{Meas, empty, AppendResult}
use nkvdb.Page.{Page, is_full, update_min_max}
use nkvdb.Page.Append.{
  Batch, store, batch_step, batch_loop, batch_end, batch_begin, batch_times, append_array,
}
use nkvdb.Page.Rounds.{Rounds, batch_step-Rounds, batch_end_cases}
use nkvdb.Page.Layout.{IsSound}
use nkvdb.Page.Layout.Fill.{HasSize, FitsSize}
use nkvdb.Page.Layout.Grown.{append_array-Grown}
use nkvdb.Page.Bounds.{IsFiltered, IsTimed, store-IsFiltered}

-- The loop of an append to `p`: its filters, and the times of the records filled so far.
record Filled (begin : List Meas) (p : Page) (b : Batch) : Type 0 where
  filtered : IsFiltered b.page
  moved : b.page.header.write_pos ≡ p.header.write_pos + b.i
  counted : b.writed ≡ b.i
  old : (j : ℕ) → j < p.header.write_pos → (b.page.records j).time ≡ (p.records j).time
  new :
      (k : ℕ)
      → k < b.i
      → (b.page.records (p.header.write_pos + k)).time ≡ (get_or begin k empty).time
  times :
      (b.page.header.min_time ≡ p.header.min_time)
      × (b.page.header.max_time ≡ p.header.max_time)
      × (b.page.header.min_max_init ≡ p.header.min_max_init)

store_times :
    (m : Meas) (p : Page) (i : ℕ)
    → ((store m p).records i).time
      ≡ (if i == p.header.write_pos then m.time else (p.records i).time)
unfolding store
store_times m p i = ground arith

store_header :
    (m : Meas) (p : Page)
    → ((store m p).header.write_pos ≡ p.header.write_pos + 1)
      × ((store m p).header.min_time ≡ p.header.min_time)
      × ((store m p).header.max_time ≡ p.header.max_time)
      × ((store m p).header.min_max_init ≡ p.header.min_max_init)
unfolding store
store_header m p = (refl, refl, refl, refl)

with_index : (ix : Index) (p : Page) → IsFiltered p → IsFiltered (record p { index = ix })
with_index ix p f = record { ids = f.ids; flags = f.flags; sources = f.sources }

Rounds-Filled :
    (begin : List Meas) (m : Meas) (p : Page) (b b' : Batch)
    → Rounds m b b'
    → get_or begin b.i empty ≡ m
    → Filled begin p b
    → Filled begin p b'
Rounds-Filled begin m p b b' r g f = record {
  filtered =
      subst IsFiltered (sym r.page')
        (with_index r.index' (store m b.page) (store-IsFiltered m b.page f.filtered));
  moved = ground (arith, r.page', r.i', store_header m b.page, f.moved);
  counted = omega (arith, r.i', r.writed', f.counted);
  old = λ j h. ground (arith, r.page', store_times m b.page j, f.old j, f.moved);
  new = λ k h.
      ground
        (arith, r.page', r.i', g, store_times m b.page (p.header.write_pos + k), f.new k, f.moved);
  times = ground (arith, r.page', store_header m b.page, f.times);
}

batch_loop-Filled :
    (fuel : ℕ) (begin ms : List Meas) (p : Page) (b b' : Batch)
    → ((k : ℕ) → get_or ms k empty ≡ get_or begin (b.i + k) empty)
    → Filled begin p b
    → batch_loop fuel begin ms b ≡ ok b'
    → Filled begin p b' × (b'.i ≤ b.i + length ms)
unfolding batch_loop
batch_loop-Filled fuel begin [] p b b' g f e =
    let q = ok-injective b b' e in
    (subst (Filled begin p) q f, omega (arith, ap (λ (x : Batch). x.i) q))
batch_loop-Filled fuel begin (m ∷ ms) p b b' g f e = elim (Bool-cases (is_full b.page)) [
  | inl t ↦
      let q = ok-injective b b' (rw t at e) in
      (subst (Filled begin p) q f, omega (arith, ap (λ (x : Batch). x.i) q))
  | inr t ↦
      let (b₁, e₁, e₂) =
        >>=-eq-ok (batch_step fuel begin m b) (batch_loop fuel begin ms) {y = b'} (rw t at e) in
      let r = batch_step-Rounds fuel begin m b b₁ e₁ in
      let here : get_or begin b.i empty ≡ m =
        ap (λ i. get_or begin i empty) (omega arith) ∙ sym (g 0) in
      let (f', l) =
        batch_loop-Filled fuel begin ms p b₁ b'
          (λ k. g (suc k) ∙ ap (λ i. get_or begin i empty) (omega (arith, r.i')))
          (Rounds-Filled begin m p b b₁ r here f) e₂ in
      (f', omega (arith, r.i', l))
]

-- The times do not fall along the list.
abbrev pub IsSorted : List Meas → Type 0
IsSorted ms =
    (i j : ℕ) → i ≤ j → j < length ms → (get_or ms i empty).time ≤ (get_or ms j empty).time

module _ (begin : List Meas) (p : Page) (b : Batch) (ix : Index) (f : Filled begin p b)
    (l : b.i ≤ length begin) (s : IsSorted begin) (t : IsTimed p) where
  abbrev ended : Page
  ended = batch_times begin b.writed (record (b.page) { index = ix })

  old_enclosed :
      (j : ℕ)
      → j < p.header.write_pos
      → (ended.header.min_time ≤ (b.page.records j).time)
        × ((b.page.records j).time ≤ ended.header.max_time)
  unfolding batch_times update_min_max
  old_enclosed j h = ground (arith, f.old j, f.times, t.enclosed j, t.init)

  new_enclosed :
      (k : ℕ)
      → k < b.i
      → (ended.header.min_time ≤ (get_or begin k empty).time)
        × ((get_or begin k empty).time ≤ ended.header.max_time)
  unfolding batch_times update_min_max
  new_enclosed k h = ground (
    arith,
    f.counted,
    s 0 k (omega arith) (omega arith),
    s k (b.writed - 1) (omega (arith, f.counted)) (omega (arith, f.counted)),
  )

  records-ended : ended.records ≡ b.page.records
  unfolding batch_times
  records-ended = ground arith

  write_pos-ended : ended.header.write_pos ≡ p.header.write_pos + b.i
  unfolding batch_times update_min_max
  write_pos-ended = ground (arith, f.moved)

  ended-IsTimed : IsTimed ended
  unfolding batch_times update_min_max
  ended-IsTimed = record {
    enclosed = λ j h. elim (dec_lt j p.header.write_pos) [
      | yes a ↦ rw records-ended (old_enclosed j a)
      | no a ↦
          let e : p.header.write_pos + (j - p.header.write_pos) ≡ j = omega arith in
          let g = f.new (j - p.header.write_pos) (omega (arith, write_pos-ended)) in
          rw (records-ended, ← e, g)
            (new_enclosed (j - p.header.write_pos) (omega (arith, write_pos-ended)))
    ];
    init = λ h. ground (arith, t.init, f.times, f.counted, f.moved);
  }

times-IsFiltered :
    (begin : List Meas) (n : ℕ) (p : Page) → IsFiltered p → IsFiltered (batch_times begin n p)
unfolding batch_times update_min_max
times-IsFiltered begin n p f = record {
  ids = λ i h. ground (arith, f.ids i);
  flags = λ i h. ground (arith, f.flags i);
  sources = λ i h. ground (arith, f.sources i);
}

begin-Filled : (begin : List Meas) (p : Page) → IsFiltered p → Filled begin p (batch_begin p)
begin-Filled begin p f = record {
  filtered = f;
  moved = omega arith;
  counted = refl;
  old = λ j h. refl;
  new = λ k h. absurd (omega arith);
  times = (refl, refl, refl);
}

-- For an append that succeeds, of an array sorted by time whose values have `s` bytes, `s` at most
-- eight, to a sound page whose free bytes such measurements fill up to less than one record: if the
-- filters of the header passed the check for the id, flag and source of every record, and its times
-- enclosed those of all records, then they do so afterwards, and the page is sound.
pub append_array-IsTimed :
    (s fuel : ℕ) (begin : List Meas) (p q : Page) (r : AppendResult)
    → append_array fuel begin p ≡ ok (q, r)
    → s ≤ 8
    → All (HasSize s) begin
    → IsSound p
    → FitsSize s p
    → IsSorted begin
    → IsFiltered p
    → IsTimed p
    → IsSound q × IsFiltered q × IsTimed q
unfolding append_array
append_array-IsTimed s fuel begin p q r e small sizes sound fits sorted f t =
    let (b, e₁, e₂) =
      >>=-eq-ok (batch_loop fuel begin begin (batch_begin p)) (batch_end fuel begin) {y = (q, r)}
        e in
    let (g, l) =
      batch_loop-Filled fuel begin begin p (batch_begin p) b
        (λ k. ap (λ i. get_or begin i empty) (omega arith)) (begin-Filled begin p f) e₁ in
    let (ix, e₃, _) = batch_end_cases fuel begin b q r e₂ in
    let grown = append_array-Grown s fuel begin p q r e small sizes sound fits in
    (
      grown.sound,
      rw e₃ (
          times-IsFiltered begin b.writed (record (b.page) { index = ix })
            (with_index ix b.page g.filtered)),
      rw e₃ (ended-IsTimed begin p b ix g (omega arith) sorted t),
    )

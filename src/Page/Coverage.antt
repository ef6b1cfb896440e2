-- ===== src/Page/Coverage.antt =====
-- The index records that `append(PMeas, size_t)` of libnkvdb/page.cpp writes, against the
-- positions that it fills.
use nkvdb.Prelude.{
  ℕ, ◌+◌, ◌-◌, ◌*◌, ◌/◌, ◌%◌, ◌≤◌, ◌<◌, ◌≡◌, refl, true, false, List, [], ◌∷◌, ◌++◌, not, ◌&&◌,
  ◌==◌, length, arith, Bool-cases, inl, inr, length-append, ℕ_discrete, ==_iff, sym, ap, ◌∙◌, ◌≢◌,
  All,
}
use mathlib.Core.List.{append-nil, append_assoc}
use nkvdb.Prelude.Result.{ok}
use nkvdb.Meas.{Meas, AppendResult}
use nkvdb.Index.{Index}
use nkvdb.Index.Ranges.{positions, range, range-add, positions-snoc, write_index_rec_room}
use nkvdb.Page.{Page, is_full, update_min_max}
use nkvdb.Page.Layout.{IsSound}
use nkvdb.Page.Layout.Fill.{HasSize, FitsSize}
use nkvdb.Page.Layout.Grown.{append_array-Grown}
use nkvdb.Page.Append.{
  Batch, store, batch_store, batch_step, batch_loop, batch_end, block_record, rest_record,
  after_block, next_round, append_array, batch_begin, batch_times,
}

-- The state of the loop of an append to `p`: the records written to the index cover the positions
-- up to that of `start`, which is the last full hundred below `i`.
record Covers (p : Page) (b : Batch) : Type 0 where
  counted : b.writed ≡ b.i
  hundred : b.start ≡ 100 * ((b.i - 1) / 100)
  moved : b.page.header.write_pos ≡ p.header.write_pos + b.i
  begins : b.pos_begin ≡ p.header.write_pos + b.start
  capacity : b.page.index.capacity ≡ p.index.capacity
  covered :
      positions b.page.index.pending ≡ positions p.index.pending ++ range p.header.write_pos b.start

abbrev pending_length : Batch → ℕ
pending_length b = length b.page.index.pending

block_full : (p : Page) (b : Batch) → Covers p b → 0 < b.i → b.i % 100 ≡ 0 → b.i ≡ b.start + 100
block_full p b c h e = omega (arith, c.hundred)

module _ (fuel : ℕ) (begin : List Meas) (m : Meas) (p : Page) (b : Batch) where
  -- What one round does, by the two cases of its test.
  abbrev stored : Batch
  stored = batch_store m b

  abbrev block_index : Index
  block_index = record (stored.page.index) {
    pending = stored.page.index.pending ++ block_record begin stored ∷ [];
  }

  index-batch_store : stored.page.index ≡ b.page.index
  unfolding batch_store
  index-batch_store = refl

  batch_step_block :
      not (b.i == 0) && b.i % 100 == 0 ≡ true
      → length b.page.index.pending < b.page.index.capacity
      → batch_step fuel begin m b ≡ ok (next_round (after_block stored block_index))
  unfolding batch_step
  batch_step_block e h =
      rw (e, write_index_rec_room fuel (block_record begin stored) stored.page.index h)

  batch_step_plain :
      not (b.i == 0) && b.i % 100 == 0 ≡ false → batch_step fuel begin m b ≡ ok (next_round stored)
  unfolding batch_step
  batch_step_plain e = rw e

  plain-Covers :
      Covers p b → not (b.i == 0) && b.i % 100 == 0 ≡ false → Covers p (next_round stored)
  unfolding batch_store store
  plain-Covers c e = record {
    counted = omega (arith, c.counted);
    hundred = ground (arith, c.hundred);
    moved = omega (arith, c.moved);
    begins = c.begins;
    capacity = c.capacity;
    covered = c.covered;
  }

  block-Covers :
      Covers p b
      → not (b.i == 0) && b.i % 100 == 0 ≡ true
      → Covers p (next_round (after_block stored block_index))
  unfolding batch_store store block_record
  block-Covers c e =
      let full : b.i ≡ b.start + 100 = ground (arith, block_full p b c) in
      record {
        counted = omega (arith, c.counted);
        hundred = ground arith;
        moved = omega (arith, c.moved);
        begins = omega (arith, c.begins, full);
        capacity = c.capacity;
        covered =
            rw
              (
                positions-snoc b.page.index.pending (block_record begin stored),
                c.covered,
                c.begins,
                full,
                range-add p.header.write_pos b.start 100,
              )
              (append_assoc (positions p.index.pending) (range p.header.write_pos b.start)
                (range (p.header.write_pos + b.start) 100));
      }

  -- A round goes through while the index need not be flushed.
  batch_step-Covers :
      Covers p b
      → pending_length b < p.index.capacity
      → (b' : Batch) × (batch_step fuel begin m b ≡ ok b')
        × Covers p b'
        × (pending_length b' ≤ pending_length b + 1)
        × (b'.i ≡ b.i + 1)
  unfolding batch_store store
  batch_step-Covers c h = elim (Bool-cases (not (b.i == 0) && b.i % 100 == 0)) [
    | inl e ↦ (
      next_round (after_block stored block_index),
      batch_step_block e (omega (arith, c.capacity)),
      block-Covers c e,
      omega (arith, length-append b.page.index.pending (block_record begin stored ∷ [])),
      refl,
    )
    | inr e ↦ (next_round stored, batch_step_plain e, plain-Covers c e, omega arith, refl)
  ]

-- The loop goes through, and covers what it has filled up to the last full hundred.
batch_loop-Covers :
    (fuel : ℕ) (begin ms : List Meas) (p : Page) (b : Batch)
    → Covers p b
    → pending_length b + length ms ≤ p.index.capacity
    → (b' : Batch) × (batch_loop fuel begin ms b ≡ ok b')
      × Covers p b'
      × (pending_length b' ≤ pending_length b + length ms)
      × (b'.i ≤ b.i + length ms)
unfolding batch_loop
batch_loop-Covers fuel begin [] p b c h = (b, refl, c, omega arith, omega arith)
batch_loop-Covers fuel begin (m ∷ ms) p b c h = elim (Bool-cases (is_full b.page)) [
  | inl e ↦ (b, rw e, c, omega arith, omega arith)
  | inr e ↦
      let (b₁, e₁, c₁, l₁, i₁) = batch_step-Covers fuel begin m p b c (omega arith) in
      let (b₂, e₂, c₂, l₂, i₂) = batch_loop-Covers fuel begin ms p b₁ c₁ (omega arith) in
      (b₂, rw (e, e₁) e₂, c₂, omega arith, omega arith)
]

-- What follows the loop leaves the write position and the index as they are.
index-batch_times :
    (begin : List Meas) (n : ℕ) (p : Page)
    → ((batch_times begin n p).index ≡ p.index)
      × ((batch_times begin n p).header.write_pos ≡ p.header.write_pos)
unfolding batch_times update_min_max
index-batch_times begin n p = ground arith

-- What follows the loop covers the rest.
module _ (fuel : ℕ) (begin : List Meas) (p : Page) (b : Batch) (c : Covers p b) where
  abbrev last_index : Index
  last_index = record (b.page.index) { pending = b.page.index.pending ++ rest_record begin b ∷ [] }

  batch_end_no_rest :
      b.start ≡ b.i
      → batch_end fuel begin b
        ≡ ok (batch_times begin b.writed b.page, record { writed = b.writed; ignored = 0 })
  unfolding batch_end
  batch_end_no_rest e = rw ((==_iff b.start b.i).1 e)

  batch_end_rest :
      b.start ≢ b.i
      → pending_length b < p.index.capacity
      → batch_end fuel begin b
        ≡ ok (
          batch_times begin b.writed (record (b.page) { index = last_index }),
          record { writed = b.writed; ignored = 0 },
        )
  unfolding batch_end
  batch_end_rest e h =
      let n : (b.start == b.i) ≡ false = ground arith in
      rw (
        n,
        write_index_rec_room fuel (rest_record begin b) b.page.index (omega (arith, c.capacity)),
      )

  positions_no_rest :
      b.start ≡ b.i
      → positions b.page.index.pending ≡ positions p.index.pending ++ range p.header.write_pos b.i
  positions_no_rest e = rw (← e) c.covered

  positions_rest :
      positions last_index.pending ≡ positions p.index.pending ++ range p.header.write_pos b.i
  unfolding rest_record
  positions_rest =
      let up : b.start ≤ b.i = omega (arith, c.hundred) in
      let e : b.i ≡ b.start + (b.i - b.start) = omega arith in
      positions-snoc b.page.index.pending (rest_record begin b)
      ∙ rw (c.covered, c.begins)
          (append_assoc (positions p.index.pending) (range p.header.write_pos b.start)
              (range (p.header.write_pos + b.start) (b.i - b.start))
            ∙ ap (λ xs. positions p.index.pending ++ xs)
                (sym (range-add p.header.write_pos b.start (b.i - b.start))
                  ∙ ap (range p.header.write_pos) (sym e)))

  batch_end-covers :
      pending_length b < p.index.capacity
      → (p' : Page) × (batch_end fuel begin b ≡ ok (p', record { writed = b.writed; ignored = 0 }))
        × (p'.header.write_pos ≡ p.header.write_pos + b.i)
        × (positions p'.index.pending ≡ positions p.index.pending ++ range p.header.write_pos b.i)
  batch_end-covers h = elim (ℕ_discrete b.start b.i) [
    | yes e ↦ (
      batch_times begin b.writed b.page,
      batch_end_no_rest e,
      (index-batch_times begin b.writed b.page).1 ∙ c.moved,
      rw (index-batch_times begin b.writed b.page).0 (positions_no_rest e),
    )
    | no e ↦
        let q = record (b.page) { index = last_index } in
        (
          batch_times begin b.writed q,
          batch_end_rest e h,
          (index-batch_times begin b.writed q).1 ∙ c.moved,
          rw (index-batch_times begin b.writed q).0 positions_rest,
        )
  ]

batch_begin-Covers : (p : Page) → Covers p (batch_begin p)
unfolding range
batch_begin-Covers p = record {
  counted = refl;
  hundred = omega arith;
  moved = omega arith;
  begins = omega arith;
  capacity = refl;
  covered = sym (append-nil (positions p.index.pending));
}

-- An array whose values have `s` bytes, `s` at most eight, is appended to a sound page whose free
-- bytes such measurements fill up to less than one record, and for its records the index has room.
-- The append returns, advances the write position by the count that it returns, and leaves the page
-- sound. The records which it adds to the index cover the filled positions exactly, each once and
-- in order.
pub append_array-covers :
    (s fuel : ℕ) (begin : List Meas) (p : Page)
    → s ≤ 8
    → All (HasSize s) begin
    → IsSound p
    → FitsSize s p
    → length p.index.pending + length begin < p.index.capacity
    → (p' : Page) × (r : AppendResult) × (append_array fuel begin p ≡ ok (p', r))
      × IsSound p'
      × (r.writed ≤ length begin)
      × (p'.header.write_pos ≡ p.header.write_pos + r.writed)
      × (positions p'.index.pending
          ≡ positions p.index.pending ++ range p.header.write_pos r.writed)
unfolding append_array
append_array-covers s fuel begin p small sizes sound fits h =
    let (b, e, c, l, i) =
      batch_loop-Covers fuel begin begin p (batch_begin p) (batch_begin-Covers p) (omega arith) in
    let (p', e', w, q) = batch_end-covers fuel begin p b c (omega arith) in
    let r : AppendResult = record { writed = b.writed; ignored = 0 } in
    let returns : append_array fuel begin p ≡ ok (p', r) = rw e e' in
    (
      p',
      r,
      returns,
      (append_array-Grown s fuel begin p p' r returns small sizes sound fits).sound,
      omega (arith, c.counted),
      rw c.counted w,
      rw c.counted q,
    )

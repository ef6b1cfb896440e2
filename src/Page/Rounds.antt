-- ===== src/Page/Rounds.antt =====
-- What one round of the loop of `append(PMeas, size_t)` of libnkvdb/page.cpp does to the page, and
-- what follows the loop, with the index left out.
use nkvdb.Prelude.{
  ℕ, ◌+◌, ◌%◌, ◌≡◌, refl, not, ◌&&◌, List, Bool-cases, inl, inr, ◌==◌, if◌then◌else◌, sym, ap,
}
use mathlib.Core.Path.{subst}
use nkvdb.Prelude.Result.{ok, >>=-eq-ok, ok-injective}
use nkvdb.Index.{Index, write_index_rec}
use nkvdb.Meas.{Meas, AppendResult}
use nkvdb.Page.{Page}
use nkvdb.Page.Append.{
  Batch, store, batch_store, batch_step, batch_end, batch_times, block_record, rest_record,
  after_block, next_round,
}

-- A round that goes through stores its measurement and touches the index.
pub record Rounds (m : Meas) (b b' : Batch) : Type 0 where
  pub index' : Index
  pub page' : b'.page ≡ record (store m b.page) { index = index' }
  pub i' : b'.i ≡ b.i + 1
  pub writed' : b'.writed ≡ b.writed + 1

stored-Rounds : (m : Meas) (b : Batch) → Rounds m b (next_round (batch_store m b))
unfolding batch_store
stored-Rounds m b = record { index' = b.page.index; page' = refl; i' = refl; writed' = refl }

block-Rounds :
    (m : Meas) (b : Batch) (ix : Index) → Rounds m b (next_round (after_block (batch_store m b) ix))
unfolding batch_store
block-Rounds m b ix = record { index' = ix; page' = refl; i' = refl; writed' = refl }

pub batch_step-Rounds :
    (fuel : ℕ) (begin : List Meas) (m : Meas) (b b' : Batch)
    → batch_step fuel begin m b ≡ ok b'
    → Rounds m b b'
unfolding batch_step
batch_step-Rounds fuel begin m b b' e = elim (Bool-cases (not (b.i == 0) && b.i % 100 == 0)) [
  | inl t ↦
      let stored = batch_store m b in
      let (ix, _, e') =
        >>=-eq-ok (write_index_rec fuel (block_record begin stored) stored.page.index)
          (λ ix. ok (next_round (after_block stored ix))) {y = b'} (rw t at e) in
      subst (Rounds m b) (ok-injective _ b' e') (block-Rounds m b ix)
  | inr f ↦
      subst (Rounds m b) (ok-injective (next_round (batch_store m b)) b' (rw f at e))
        (stored-Rounds m b)
]

-- What follows a loop sets the times, and touches the index.
pub batch_end_cases :
    (fuel : ℕ) (begin : List Meas) (b : Batch) (q : Page) (r : AppendResult)
    → batch_end fuel begin b ≡ ok (q, r)
    → (ix : Index) × (q ≡ batch_times begin b.writed (record (b.page) { index = ix }))
      × (r.writed ≡ b.writed)
unfolding batch_end
batch_end_cases fuel begin b q r e =
    let (ix, _, e') =
      >>=-eq-ok
        (if b.start == b.i
          then ok b.page.index
          else write_index_rec fuel (rest_record begin b) b.page.index)
        (λ ix. ok (
          batch_times begin b.writed (record (b.page) { index = ix }),
          record { writed = b.writed; ignored = 0 },
        ))
        {y = (q, r)} e in
    let same = ok-injective _ (q, r) e' in
    (
      ix,
      sym (ap (λ (x : Page × AppendResult). x.0) same),
      sym (ap (λ (x : Page × AppendResult). x.1.writed) same),
    )

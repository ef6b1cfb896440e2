-- ===== src/Page/Bounds.antt =====
-- The times and filters in the header of a page against the measurements in it, under both
-- `append` functions of libnkvdb/page.cpp.
pub mod Batches
use nkvdb.Prelude.{
  ℕ, zero, suc, ◌+◌, ◌-◌, ◌≤◌, ◌<◌, ◌≡◌, refl, Bool, true, false, arith, Bool-cases, inl, inr, ◌==◌,
  if◌then◌else◌, ◌∙◌, ◌⊎◌,
}
use nkvdb.Prelude.Result.{Result, ok, err, >>=-eq-ok}
use nkvdb.Index.{Index, write_index_rec}
use nkvdb.Bloom.{bloom_check, bloom_add}
use nkvdb.Bloom.Laws.{bloom_check-add, bloom_check-add_self}
use nkvdb.Meas.{Meas, AppendResult}
use nkvdb.Page.{Page, Header, InternalMeas, update_min_max, is_full}
use nkvdb.Page.Append.{store, append, timed_for, single_record, one_added}
use nkvdb.Page.Layout.{IsSound, HasRoom, store-IsSound}
use nkvdb.Page.Layout.Fill.{IsSound-with_index}

-- The filters of the header pass the check for every record.
pub record IsFiltered (p : Page) : Type 0 where
  pub ids : (i : ℕ) → i < p.header.write_pos → bloom_check p.header.id_fltr (p.records i).id ≡ true
  pub flags :
      (i : ℕ) → i < p.header.write_pos → bloom_check p.header.flag_fltr (p.records i).flag ≡ true
  pub sources :
      (i : ℕ) → i < p.header.write_pos → bloom_check p.header.src_fltr (p.records i).source ≡ true

-- The times of the header enclose those of the records, and are set if there are any.
pub record IsTimed (p : Page) : Type 0 where
  pub enclosed :
      (i : ℕ)
      → i < p.header.write_pos
      → (p.header.min_time ≤ (p.records i).time) × ((p.records i).time ≤ p.header.max_time)
  pub init : 0 < p.header.write_pos → p.header.min_max_init ≡ true

-- A store keeps the filters right.
pub store-IsFiltered : (m : Meas) (p : Page) → IsFiltered p → IsFiltered (store m p)
unfolding store
store-IsFiltered m p f = record {
  ids = λ i h. ground (
    arith,
    f.ids i,
    bloom_check-add p.header.id_fltr m.id (p.records i).id,
    bloom_check-add_self p.header.id_fltr m.id,
  );
  flags = λ i h. ground (
    arith,
    f.flags i,
    bloom_check-add p.header.flag_fltr m.flag (p.records i).flag,
    bloom_check-add_self p.header.flag_fltr m.flag,
  );
  sources = λ i h. ground (
    arith,
    f.sources i,
    bloom_check-add p.header.src_fltr m.source (p.records i).source,
    bloom_check-add_self p.header.src_fltr m.source,
  );
}

store-IsTimed : (m : Meas) (p : Page) → IsTimed p → IsTimed (store m (timed_for m p))
unfolding store update_min_max
store-IsTimed m p t = record {
  enclosed = λ i h. ground (arith, t.enclosed i, t.init);
  init = λ h. ground arith;
}

IsFiltered-for : (m : Meas) (p : Page) → IsFiltered p → IsFiltered (timed_for m p)
unfolding update_min_max
IsFiltered-for m p f = record {
  ids = λ i h. ground (arith, f.ids i);
  flags = λ i h. ground (arith, f.flags i);
  sources = λ i h. ground (arith, f.sources i);
}

IsSound-for : (m : Meas) (p : Page) → IsSound p → IsSound (timed_for m p)
unfolding update_min_max
IsSound-for m p s = record {
  apart = ground (arith, s.apart);
  inside = ground (arith, s.inside);
  small = ground (arith, s.small);
  behind = λ i h. ground (arith, s.behind i);
  stacked = λ i j h k. ground (arith, s.stacked i j);
}

HasRoom-for : (m : Meas) (p : Page) → HasRoom m p → HasRoom m (timed_for m p)
unfolding update_min_max
HasRoom-for m p r = ground (arith, r)

-- A successful append leaves the page alone, or stores the measurement and touches the index.
append_cases :
    (fuel flg src : ℕ) (m : Meas) (p q : Page) (r : AppendResult)
    → append fuel flg src m p ≡ ok (q, r)
    → (q ≡ p)
      ⊎ ((is_full p ≡ false) × (ix : Index) × (q ≡ record (store m (timed_for m p)) { index = ix }))
unfolding append
append_cases fuel flg src m p q r e = elim (Bool-cases (p.header.readers_count == 0)) [
  | inl a ↦ elim (Bool-cases (is_full p)) [
    | inl b ↦ inl (ground (arith, a, b))
    | inr b ↦
        let (ix, _, e') =
          >>=-eq-ok
            (write_index_rec fuel (single_record flg src m p) (store m (timed_for m p)).index)
            (one_added (store m (timed_for m p))) {y = (q, r)} (rw (a, b) at e) in
        inr (b, ix, cc e')
  ]
  | inr a ↦ cc (rw a at e)
]

-- For an append of one measurement that succeeds, to a sound page which is full or has room for
-- it: if the filters of the header passed the check for the id, flag and source of every record, and
-- its times enclosed those of all records, then they do so afterwards, and the page is sound.
pub append-IsTimed :
    (fuel flg src : ℕ) (m : Meas) (p q : Page) (r : AppendResult)
    → append fuel flg src m p ≡ ok (q, r)
    → IsSound p
    → (is_full p ≡ false → HasRoom m p)
    → IsFiltered p
    → IsTimed p
    → IsSound q × IsFiltered q × IsTimed q
append-IsTimed fuel flg src m p q r e s room f t = elim (append_cases fuel flg src m p q r e) [
  | inl a ↦ rw a (s, f, t)
  | inr (b, ix, a) ↦
      let f' = store-IsFiltered m (timed_for m p) (IsFiltered-for m p f) in
      let t' = store-IsTimed m p t in
      let s' = store-IsSound m (timed_for m p) (IsSound-for m p s) (HasRoom-for m p (room b)) in
      rw a (
        IsSound-with_index ix (store m (timed_for m p)) s',
        record { ids = f'.ids; flags = f'.flags; sources = f'.sources },
        record { enclosed = t'.enclosed; init = t'.init },
      )
]

-- ===== src/Page/Layout.antt =====
-- Where the two `append` functions of libnkvdb/page.cpp put records and values in the mapped file,
-- and what `isFull` and `read` make of it.
pub mod Overrun
pub mod ReadBack
pub mod Fill
pub mod Grown
use nkvdb.Prelude.{
  ℕ, zero, suc, ◌+◌, ◌-◌, ◌*◌, ◌≤◌, ◌<◌, ◌≡◌, refl, Bool, true, false, List, ◌↔◌, ◌⊎◌, arith, word,
  ◌==◌, if◌then◌else◌, ◌^◌,
}
use nkvdb.Meas.{Meas}
use nkvdb.Page.{Page, header_bytes, meas_bytes, internal_bytes, is_full, capacity}
use nkvdb.Page.Append.{store}

-- The end of the area that `isFull` sets aside for the records.
abbrev pub records_end : Page → ℕ
records_end p = header_bytes + meas_bytes * p.header.write_pos

-- Records and values do not meet, and lie within a file whose size is far from a wrap. Each value
-- lies behind the write position for values, and before those written earlier.
pub record IsSound (p : Page) : Type 0 where
  pub apart : records_end p ≤ p.header.write_value_pos
  pub inside : p.header.write_value_pos ≤ p.header.size
  pub small : p.header.size < 2 ^ 63
  pub behind :
      (i : ℕ)
      → i < p.header.write_pos
      → (p.header.write_value_pos ≤ (p.records i).value_pos)
        × ((p.records i).value_pos + (p.records i).size ≤ p.header.size)
  pub stacked :
      (i j : ℕ)
      → i < j
      → j < p.header.write_pos
      → (p.records j).value_pos + (p.records j).size ≤ (p.records i).value_pos

-- There is room for a record and the measurement's value bytes.
abbrev pub HasRoom : Meas → Page → Type 0
HasRoom m p = records_end p + meas_bytes + m.size ≤ p.header.write_value_pos

-- A page is full exactly if less than the size of one measurement is left between the areas.
pub is_full_lem :
    (p : Page)
    → IsSound p
    → (is_full p ≡ true) ↔ (p.header.write_value_pos < records_end p + meas_bytes)
unfolding is_full
is_full_lem p s = ground (arith, s.apart, s.inside, s.small)

-- On a sound page no record overlaps a value: the bytes of record `i` end before any value starts.
pub records_before_values :
    (p : Page) (i j : ℕ)
    → IsSound p
    → i < p.header.write_pos
    → j < p.header.write_pos
    → header_bytes + internal_bytes * (i + 1) ≤ (p.records j).value_pos
records_before_values p i j s h k = omega (arith, s.apart, (s.behind j k).0)

-- The value of a measurement that has room goes right before the values written earlier.
value_pos-store :
    (m : Meas) (p : Page)
    → IsSound p
    → HasRoom m p
    → (store m p).header.write_value_pos + m.size ≡ p.header.write_value_pos
unfolding store
value_pos-store m p s r = omega (arith, s.inside, s.small)

write_pos-store : (m : Meas) (p : Page) → (store m p).header.write_pos ≡ p.header.write_pos + 1
unfolding store
write_pos-store m p = refl

-- The places of the values after a store: the new one at the write position, the others as before.
place-store :
    (m : Meas) (p : Page) (i : ℕ)
    → (((store m p).records i).value_pos ≡ (
        if i == p.header.write_pos
        then (store m p).header.write_value_pos
        else (p.records i).value_pos))
      × (((store m p).records i).size
          ≡ (if i == p.header.write_pos then m.size else (p.records i).size))
unfolding store
place-store m p i = ground arith

size-store : (m : Meas) (p : Page) → (store m p).header.size ≡ p.header.size
unfolding store
size-store m p = refl

module _ (m : Meas) (p : Page) (s : IsSound p) (r : HasRoom m p) where
  behind-store :
      (i : ℕ)
      → i < (store m p).header.write_pos
      → ((store m p).header.write_value_pos ≤ ((store m p).records i).value_pos)
        × (((store m p).records i).value_pos + ((store m p).records i).size
            ≤ (store m p).header.size)
  behind-store i h = ground (
    arith,
    place-store m p i,
    size-store m p,
    write_pos-store m p,
    value_pos-store m p s r,
    s.behind i,
    s.inside,
  )

  stacked-store :
      (i j : ℕ)
      → i < j
      → j < (store m p).header.write_pos
      → ((store m p).records j).value_pos + ((store m p).records j).size
        ≤ ((store m p).records i).value_pos
  stacked-store i j h k = ground (
    arith,
    place-store m p i,
    place-store m p j,
    write_pos-store m p,
    value_pos-store m p s r,
    s.behind i,
    s.stacked i j,
  )

-- Storing a measurement that has room keeps the page sound.
pub store-IsSound : (m : Meas) (p : Page) → IsSound p → HasRoom m p → IsSound (store m p)
store-IsSound m p s r = record {
  apart = omega (arith, value_pos-store m p s r, write_pos-store m p);
  inside = omega (arith, value_pos-store m p s r, size-store m p, s.inside);
  small = omega (arith, size-store m p, s.small);
  behind = behind-store m p s r;
  stacked = stacked-store m p s r;
}

-- ===== src/Page/Layout/Fill.antt =====
-- How many measurements `append(PMeas, size_t)` of libnkvdb/page.cpp puts into a page, and that they
-- are read back.
use nkvdb.Prelude.{
  ℕ, suc, ◌+◌, ◌-◌, ◌*◌, ◌/◌, ◌%◌, ◌≤◌, ◌<◌, ◌≡◌, refl, true, false, List, [], ◌∷◌, arith,
  Bool-cases, inl, inr, ◌∙◌, get_or, length, sym, ap, min, some, All, dec_lt, ◌⊎◌,
}
use mathlib.Core.Path.{subst}
use native.Mathlib.Nat.{mod-eq_of_lt, add-mod_right, add-mul-div_right, div-eq_of_lt}
use nkvdb.Prelude.Result.{ok, >>=-eq-ok, ok-injective}
use nkvdb.Index.{Index}
use nkvdb.Meas.{Meas, empty, AppendResult}
use nkvdb.Page.{Page, is_full, update_min_max, read, meas_bytes}
use nkvdb.Page.Append.{
  Batch, store, batch_step, batch_loop, batch_end, batch_begin, batch_times, append_array,
}
use nkvdb.Page.Rounds.{Rounds, batch_step-Rounds, batch_end_cases}
use nkvdb.Page.Layout.{
  IsSound, HasRoom, records_end, store-IsSound, is_full_lem, value_pos-store, write_pos-store,
}
use nkvdb.Page.Layout.ReadBack.{read_back, read-store_new, read-store_old}

-- The bytes between the records and the values.
abbrev pub gap : Page → ℕ
gap p = p.header.write_value_pos - records_end p

-- A value of `s` bytes, in use of the sixteen of the array, which `read` can take.
abbrev pub HasSize : ℕ → Meas → Type 0
HasSize s m = (m.size ≡ s) × (m.size ≤ length m.value)

-- With values of `s` bytes a page can be filled up to less than one record's room: no value is
-- stored that the test for a full page lets through and that does not fit.
abbrev pub FitsSize : ℕ → Page → Type 0
FitsSize s p = gap p % (meas_bytes + s) < meas_bytes

module _ (s : ℕ) (m : Meas) (p : Page) (z : HasSize s m) (sound : IsSound p)
    (fits : FitsSize s p) where
  is_full-gap : is_full p ≡ false → meas_bytes ≤ gap p
  unfolding is_full
  is_full-gap e = ground (arith, sound.apart, sound.inside, sound.small)

  gap_whole : meas_bytes ≤ gap p → meas_bytes + s ≤ gap p
  gap_whole h = elim (dec_lt (gap p) (meas_bytes + s)) [
    | yes l ↦ absurd (omega (arith, fits, mod-eq_of_lt l))
    | no l ↦ omega arith
  ]

  room : is_full p ≡ false → HasRoom m p
  room e = omega (arith, gap_whole (is_full-gap e), z.0)

  gap-store : HasRoom m p → gap (store m p) + (meas_bytes + s) ≡ gap p
  gap-store r = omega (arith, value_pos-store m p sound r, write_pos-store m p, sound.apart)

  store-FitsSize : HasRoom m p → FitsSize s (store m p)
  store-FitsSize r =
      let e : gap p % (meas_bytes + s) ≡ gap (store m p) % (meas_bytes + s) =
        rw (← gap-store r) (add-mod_right (gap (store m p)) (meas_bytes + s)) in
      omega (arith, e, fits)

-- The loop of an append to `p`, with values of `s` bytes: what it leaves of the gap, and what is
-- read.
pub record Kept (s : ℕ) (begin : List Meas) (p : Page) (b : Batch) : Type 0 where
  pub sound : IsSound b.page
  pub fits : FitsSize s b.page
  pub left : gap b.page + b.i * (meas_bytes + s) ≡ gap p
  pub moved : b.page.header.write_pos ≡ p.header.write_pos + b.i
  pub counted : b.writed ≡ b.i
  pub old : (j : ℕ) → j < p.header.write_pos → read j b.page ≡ read j p
  pub new :
      (k : ℕ)
      → k < b.i
      → read (p.header.write_pos + k) b.page ≡ ok (some (read_back (get_or begin k empty)))

read_with_index : (j : ℕ) (ix : Index) (p : Page) → read j (record p { index = ix }) ≡ read j p
unfolding read
read_with_index j ix p = refl

pub IsSound-with_index : (ix : Index) (p : Page) → IsSound p → IsSound (record p { index = ix })
IsSound-with_index ix p s = record {
  apart = s.apart;
  inside = s.inside;
  small = s.small;
  behind = s.behind;
  stacked = s.stacked;
}

module _ (s : ℕ) (begin : List Meas) (m : Meas) (p : Page) (b b' : Batch) (small : s ≤ 8)
    (z : HasSize s m) (r : Rounds m b b') (g : get_or begin b.i empty ≡ m) (c : Kept s begin p b)
    (more : is_full b.page ≡ false) where
  has_room : HasRoom m b.page
  has_room = room s m b.page z c.sound c.fits more

  read-page' : (j : ℕ) → read j b'.page ≡ read j (store m b.page)
  read-page' j = rw r.page' (read_with_index j r.index' (store m b.page))

  new-Kept :
      (k : ℕ)
      → k < b'.i
      → read (p.header.write_pos + k) b'.page ≡ ok (some (read_back (get_or begin k empty)))
  new-Kept k h = elim (dec_lt k b.i) [
    | yes l ↦
        read-page' (p.header.write_pos + k)
        ∙ read-store_old m b.page (p.header.write_pos + k) c.sound has_room (omega (arith, c.moved))
        ∙ c.new k l
    | no l ↦
        let e : p.header.write_pos + k ≡ b.page.header.write_pos = omega (arith, r.i', c.moved) in
        let f : k ≡ b.i = omega (arith, r.i') in
        read-page' (p.header.write_pos + k)
        ∙ rw (e, f, g) (read-store_new m b.page c.sound has_room (omega (arith, z.0)) z.1)
  ]

  Rounds-Kept : Kept s begin p b'
  Rounds-Kept = record {
    sound =
        subst IsSound (sym r.page')
          (IsSound-with_index r.index' (store m b.page) (store-IsSound m b.page c.sound has_room));
    fits = subst (FitsSize s) (sym r.page') (store-FitsSize s m b.page z c.sound c.fits has_room);
    left = rw r.page' (
        omega (
          arith,
          gap-store s m b.page z c.sound c.fits has_room,
          c.left,
          ap (λ (t : ℕ). t * (meas_bytes + s)) r.i',
        ));
    moved = rw r.page' (omega (arith, write_pos-store m b.page, r.i', c.moved));
    counted = omega (arith, r.i', r.writed', c.counted);
    old = λ j h.
        read-page' j
        ∙ read-store_old m b.page j c.sound has_room (omega (arith, c.moved))
        ∙ c.old j h;
    new = new-Kept;
  }

pub batch_loop-Kept :
    (s fuel : ℕ) (begin ms : List Meas) (p : Page) (b b' : Batch)
    → s ≤ 8
    → All (HasSize s) ms
    → b.i + length ms ≡ length begin
    → ((k : ℕ) → get_or ms k empty ≡ get_or begin (b.i + k) empty)
    → Kept s begin p b
    → batch_loop fuel begin ms b ≡ ok b'
    → Kept s begin p b' × (b'.i ≤ length begin) × ((b'.i ≡ length begin) ⊎ (is_full b'.page ≡ true))
unfolding batch_loop
batch_loop-Kept s fuel begin [] p b b' small z n g c e =
    let q = ok-injective b b' e in
    let i = ap (λ (x : Batch). x.i) q in
    (subst (Kept s begin p) q c, omega (arith, i), inl (omega (arith, i)))
batch_loop-Kept s fuel begin (m ∷ ms) p b b' small z n g c e = elim (Bool-cases (is_full b.page)) [
  | inl t ↦
      let q = ok-injective b b' (rw t at e) in
      (
        subst (Kept s begin p) q c,
        omega (arith, ap (λ (x : Batch). x.i) q),
        inr (ap (λ (x : Batch). is_full x.page) (sym q) ∙ t),
      )
  | inr t ↦
      let (b₁, e₁, e₂) =
        >>=-eq-ok (batch_step fuel begin m b) (batch_loop fuel begin ms) {y = b'} (rw t at e) in
      let r = batch_step-Rounds fuel begin m b b₁ e₁ in
      let here : get_or begin b.i empty ≡ m =
        ap (λ i. get_or begin i empty) (omega arith) ∙ sym (g 0) in
      batch_loop-Kept s fuel begin ms p b₁ b' small z.1 (omega (arith, r.i'))
        (λ k. g (suc k) ∙ ap (λ i. get_or begin i empty) (omega (arith, r.i')))
        (Rounds-Kept s begin m p b b₁ small z.0 r here c t) e₂
]

-- The count that a loop ends with.
count_min :
    (left whole i n k : ℕ)
    → left + i * n ≡ whole
    → 0 < n
    → i ≤ k
    → (i ≡ k) ⊎ (left < n)
    → i ≡ min k (whole / n)
count_min left whole i n k e pos h d =
    let q : whole / n ≡ left / n + i = rw (← e) (add-mul-div_right left i pos) in
    elim d [ inl x ↦ omega (arith, q) | inr y ↦ omega (arith, q, div-eq_of_lt y) ]

pub begin-Kept :
    (s : ℕ) (begin : List Meas) (p : Page)
    → IsSound p
    → FitsSize s p
    → Kept s begin p (batch_begin p)
begin-Kept s begin p sound fits = record {
  sound = sound;
  fits = fits;
  left = omega arith;
  moved = omega arith;
  counted = refl;
  old = λ j h. refl;
  new = λ k h. absurd (omega arith);
}

read-batch_times :
    (begin : List Meas) (n j : ℕ) (p : Page) → read j (batch_times begin n p) ≡ read j p
unfolding read batch_times update_min_max
read-batch_times begin n j p = ground arith

-- An append of measurements with values of `s` bytes, `s` at most eight, to a sound page whose free
-- bytes such measurements fill up to less than one record: when it returns, it has written as many
-- of them as have room, these are read back in order from the former write position on, and
-- everything before that is read as before.
pub append_array-read :
    (s fuel : ℕ) (begin : List Meas) (p q : Page) (r : AppendResult)
    → append_array fuel begin p ≡ ok (q, r)
    → s ≤ 8
    → All (HasSize s) begin
    → IsSound p
    → FitsSize s p
    → (r.writed ≡ min (length begin) (gap p / (meas_bytes + s)))
      × ((k : ℕ)
          → k < r.writed
          → read (p.header.write_pos + k) q ≡ ok (some (read_back (get_or begin k empty))))
      × ((j : ℕ) → j < p.header.write_pos → read j q ≡ read j p)
unfolding append_array
append_array-read s fuel begin p q r e small z sound fits =
    let (b, e₁, e₂) =
      >>=-eq-ok (batch_loop fuel begin begin (batch_begin p)) (batch_end fuel begin) {y = (q, r)}
        e in
    let (c, l, d) =
      batch_loop-Kept s fuel begin begin p (batch_begin p) b small z (omega arith)
        (λ k. ap (λ i. get_or begin i empty) (omega arith)) (begin-Kept s begin p sound fits) e₁ in
    let (ix, e₃, e₄) = batch_end_cases fuel begin b q r e₂ in
    let same : (j : ℕ) → read j q ≡ read j b.page = λ j.
      ap (read j) e₃
      ∙ read-batch_times begin b.writed j (record (b.page) { index = ix })
      ∙ read_with_index j ix b.page in
    (
      e₄
          ∙ c.counted
          ∙ count_min (gap b.page) (gap p) b.i (meas_bytes + s) (length begin) c.left (omega arith)
              l (full_or_done b c.sound d),
      λ k h. same (p.header.write_pos + k) ∙ c.new k (omega (arith, e₄, c.counted)),
      λ j h. same j ∙ c.old j h,
    )
  where
    full_or_done :
        (b : Batch)
        → IsSound b.page
        → (b.i ≡ length begin) ⊎ (is_full b.page ≡ true)
        → (b.i ≡ length begin) ⊎ (gap b.page < meas_bytes + s)
    full_or_done b sound (inl x) = inl x
    full_or_done b sound (inr x) = inr (omega (arith, (is_full_lem b.page sound).0 x, sound.apart))

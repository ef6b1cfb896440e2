-- ===== src/WriteWindow/Latest.antt =====
-- The entries of a write window (libnkvdb/writewindow.cpp, libnkvdb/page.cpp) after a run of updates.
use nkvdb.Prelude.{
  ℕ, zero, suc, ◌+◌, ◌-◌, ◌≤◌, ◌<◌, ◌≡◌, refl, ◌⊎◌, inl, List, [], ◌∷◌, ◌++◌, length, length-append,
  length-replicate, get_or, set, take, replicate, arith, leb, ltb, ◌==◌, if◌then◌else◌, All, ap,
  ◌∙◌, ℕ_discrete,
}
use mathlib.Core.List.{append_assoc}
use nkvdb.Meas.{Meas, empty}
use nkvdb.WriteWindow.{WriteWindow, slot, resize, update, update_all, assign, copy_loop}

module _ {A : Type 0} where
  get_or-set :
      (xs : List A) (i j : ℕ) (v d : A)
      → i < length xs
      → get_or (set xs i v) j d ≡ (if i == j then v else get_or xs j d)
  get_or-set [] i j v d h = absurd (omega arith)
  get_or-set (x ∷ xs) zero zero v d h = ground arith
  get_or-set (x ∷ xs) zero (suc j) v d h = ground arith
  get_or-set (x ∷ xs) (suc i) zero v d h = ground arith
  get_or-set (x ∷ xs) (suc i) (suc j) v d h = ground (arith, get_or-set xs i j v d)

  -- A list made longer by defaults has the same elements.
  get_or-replicate : (n j : ℕ) (d : A) → get_or (replicate n d) j d ≡ d
  get_or-replicate zero j d = refl
  get_or-replicate (suc n) zero d = refl
  get_or-replicate (suc n) (suc j) d = get_or-replicate n j d

  get_or-extend :
      (xs : List A) (n k j : ℕ) (d : A)
      → length xs ≤ n
      → get_or (take n xs ++ replicate k d) j d ≡ get_or xs j d
  get_or-extend [] zero k j d h = get_or-replicate k j d
  get_or-extend [] (suc n) k j d h = get_or-replicate k j d
  get_or-extend (x ∷ xs) zero k j d h = absurd (omega arith)
  get_or-extend (x ∷ xs) (suc n) k zero d h = refl
  get_or-extend (x ∷ xs) (suc n) k (suc j) d h = get_or-extend xs n k j d (omega arith)

  get_or_past : (xs : List A) (j : ℕ) (d : A) → length xs ≤ j → get_or xs j d ≡ d
  get_or_past [] j d h = refl
  get_or_past (x ∷ xs) zero d h = absurd (omega arith)
  get_or_past (x ∷ xs) (suc j) d h = get_or_past xs j d (omega arith)

  pub take_all : (xs : List A) (n : ℕ) → length xs ≤ n → take n xs ≡ xs
  take_all [] zero h = refl
  take_all [] (suc n) h = refl
  take_all (x ∷ xs) zero h = absurd (omega arith)
  take_all (x ∷ xs) (suc n) h = ap (λ ys. x ∷ ys) (take_all xs n (omega arith))

length-resize : (ww : WriteWindow) (n : ℕ) → length ww ≤ n → length (resize n ww) ≡ n
length-resize ww n h = rw (take_all ww n h) (
    omega (
      arith,
      length-append ww (replicate (n - length ww) empty),
      length-replicate (n - length ww) empty,
    ))

slot_lem : (ww : WriteWindow) (id : ℕ) → slot ww id ≡ get_or ww id empty
unfolding slot
slot_lem ww id = ground (arith, get_or_past ww id empty)

-- Recording a measurement changes the entry of its id only, and that one when the measurement is
-- later than the entry, or is the first one past the end of the window.
pub slot-update :
    (m : Meas) (ww : WriteWindow) (id : ℕ)
    → slot (update m ww) id ≡ (
        if id == m.id
        then (if leb (length ww) m.id
            then m
            else if ltb (slot ww m.id).time m.time
            then m
            else slot ww m.id)
        else slot ww id)
unfolding update
slot-update m ww id =
    rw (slot_lem (update m ww) id, slot_lem ww id, slot_lem ww m.id)
      (ground (
        arith,
        get_or-set ww m.id id m empty,
        get_or-set (resize (m.id + 1) ww) m.id id m empty,
        length-resize ww (m.id + 1),
        get_or-extend ww (m.id + 1) (m.id + 1 - length ww) id empty,
      ))

abbrev pub In : Meas → List Meas → Type 0
In m [] = ⊥
In m (x ∷ xs) = (m ≡ x) ⊎ In m xs

-- `w` is a latest one of the measurements `ms` of the id and `old`.
pub record IsLatest (id : ℕ) (ms : List Meas) (old w : Meas) : Type 0 where
  pub from : (w ≡ old) ⊎ ((w.id ≡ id) × In w ms)
  pub above_old : old.time ≤ w.time
  pub above_all : All (λ m. m.id ≡ id → m.time ≤ w.time) ms

-- One measurement, between the entries before and after it.
record Follows (id : ℕ) (m old mid : Meas) : Type 0 where
  one : (mid ≡ old) ⊎ ((m.id ≡ id) × (mid ≡ m))
  grows : old.time ≤ mid.time
  covers : m.id ≡ id → m.time ≤ mid.time

update-Follows :
    (id : ℕ) (m : Meas) (ww : WriteWindow) → Follows id m (slot ww id) (slot (update m ww) id)
update-Follows id m ww = elim (ℕ_discrete id m.id) [
  | yes e ↦ ground (arith, slot-update m ww id, past)
  | no e ↦ ground (arith, slot-update m ww id)
]
  where
    past : length ww ≤ m.id → slot ww m.id ≡ empty
    past h = slot_lem ww m.id ∙ get_or_past ww m.id empty h

IsLatest-cons :
    (id : ℕ) (m : Meas) (ms : List Meas) (old mid w : Meas)
    → Follows id m old mid
    → IsLatest id ms mid w
    → IsLatest id (m ∷ ms) old w
IsLatest-cons id m ms old mid w f l = record {
  from = ground (arith, f.one, l.from);
  above_old = omega (arith, f.grows, l.above_old);
  above_all = (λ p. omega (arith, f.covers p, l.above_old), l.above_all);
}

-- After any run of measurements the entry of an id is the one before the run or one of the run
-- with that id, and nothing of these is later.
pub update_all-IsLatest :
    (id : ℕ) (ms : List Meas) (ww : WriteWindow)
    → IsLatest id ms (slot ww id) (slot (update_all ms ww) id)
unfolding update_all
update_all-IsLatest id [] ww = record { from = inl refl; above_old = omega arith; above_all = tt }
update_all-IsLatest id (m ∷ ms) ww =
    IsLatest-cons id m ms (slot ww id) (slot (update m ww) id)
      (slot (update_all ms (update m ww)) id) (update-Follows id m ww)
      (update_all-IsLatest id ms (update m ww))

set-append :
    (done : List Meas) (x : Meas) (rest : List Meas) (m : Meas)
    → set (done ++ (x ∷ rest)) (length done) m ≡ (done ++ m ∷ []) ++ rest
set-append [] x rest m = refl
set-append (d ∷ done) x rest m = ap (λ ys. d ∷ ys) (set-append done x rest m)

copy_loop_lem :
    (ms done rest : List Meas)
    → length ms ≡ length rest
    → copy_loop ms (length done) (done ++ rest) ≡ done ++ ms
unfolding copy_loop
copy_loop_lem [] done [] h = refl
copy_loop_lem [] done (x ∷ rest) h = absurd (omega arith)
copy_loop_lem (m ∷ ms) done [] h = absurd (omega arith)
copy_loop_lem (m ∷ ms) done (x ∷ rest) h =
    let e : length done + 1 ≡ length (done ++ m ∷ []) =
      omega (arith, length-append done (m ∷ [])) in
    rw (set-append done x rest m, e)
      (copy_loop_lem ms (done ++ m ∷ []) rest (omega arith) ∙ append_assoc done (m ∷ []) ms)

-- An assigned window is equal to the one assigned.
pub assign_lem : (ww other : WriteWindow) → assign ww other ≡ other
unfolding assign
assign_lem ww [] = refl
assign_lem ww (m ∷ ms) =
    copy_loop_lem (m ∷ ms) [] (resize (length (m ∷ ms)) [])
      (omega (arith, length-resize [] (length (m ∷ ms))))

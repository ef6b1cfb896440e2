-- ===== src/BTree/Copies.antt =====
-- What the copying loops of include/btree.hpp and the insertions into a node leave at every place.
use nkvdb.Prelude.{
  ℕ, zero, suc, ◌+◌, ◌-◌, ◌≤◌, ◌<◌, ◌≡◌, refl, ◌∙◌, List, [], ◌∷◌, Option, none, some, get_elem?,
  get_or, set, length, length-set, dec_lt, ℕ_discrete, arith, ◌&&◌, leb, ltb, ◌==◌, if◌then◌else◌,
}
use nkvdb.BTree.{copy_elems, zero_elems}
use nkvdb.BTree.Array.{insert_to_array, get_elem?-insert_to_array}

module _ {A : Type 0} where
  or_else : Option A → A → A
  or_else none a = a
  or_else (some x) a = x

  get_or-eq : (xs : List A) (i : ℕ) (a : A) → get_or xs i a ≡ or_else (get_elem? xs i) a
  unfolding or_else
  get_or-eq [] i a = refl
  get_or-eq (x ∷ xs) zero a = refl
  get_or-eq (x ∷ xs) (suc i) a = get_or-eq xs i a

  pub get_or-set :
      (xs : List A) (i j : ℕ) (v a : A)
      → i < length xs
      → get_or (set xs i v) j a ≡ (if j == i then v else get_or xs j a)
  get_or-set [] i j v a h = absurd (omega arith)
  get_or-set (x ∷ xs) zero zero v a h = refl
  get_or-set (x ∷ xs) zero (suc j) v a h = ground arith
  get_or-set (x ∷ xs) (suc i) zero v a h = ground arith
  get_or-set (x ∷ xs) (suc i) (suc j) v a h = ground (arith, get_or-set xs i j v a)

  pub get_or-insert_to_array :
      (sz pos j : ℕ) (v a : A) (xs : List A)
      → pos < sz
      → sz ≤ length xs
      → get_or (insert_to_array sz pos v xs) j a ≡ (
          if j == pos
          then v
          else if ltb pos j && ltb j sz
          then get_or xs (j - 1) a
          else get_or xs j a)
  unfolding or_else
  get_or-insert_to_array sz pos j v a xs h g = ground (
    arith,
    get_or-eq (insert_to_array sz pos v xs) j a,
    get_or-eq xs (j - 1) a,
    get_or-eq xs j a,
    get_elem?-insert_to_array sz pos j v xs h g,
  )

module _ {V A : Type 0} (dflt : V) (m : ℕ) where
  pub length-copy_elems :
      (a : A) (rounds i k : ℕ) (src dst : List A)
      → length (copy_elems dflt m a rounds i k src dst) ≡ length dst
  unfolding copy_elems
  length-copy_elems a zero i k src dst = refl
  length-copy_elems a (suc rounds) i k src dst =
      length-copy_elems a rounds (i + 1) (k + 1) src (set dst k (get_or src i a))
      ∙ length-set dst k (get_or src i a)

  -- Copying reaches its places and no others.
  pub get_or-copy_elems :
      (a : A) (rounds i k j : ℕ) (src dst : List A)
      → k + rounds ≤ length dst
      → get_or (copy_elems dflt m a rounds i k src dst) j a
        ≡ (if leb k j && ltb j (k + rounds) then get_or src (i + (j - k)) a else get_or dst j a)
  unfolding copy_elems
  get_or-copy_elems a zero i k j src dst h = ground arith
  get_or-copy_elems a (suc rounds) i k j src dst h =
      let dst' = set dst k (get_or src i a) in
      let ih =
        get_or-copy_elems a rounds (i + 1) (k + 1) j src dst'
          (omega (arith, length-set dst k (get_or src i a))) in
      let at = get_or-set dst k j (get_or src i a) a (omega arith) in
      elim (dec_lt k j) [
        | yes l ↦
            let e : i + 1 + (j - (k + 1)) ≡ i + (j - k) = omega arith in
            ground (arith, rw e at ih, at, l)
        | no l ↦ elim (ℕ_discrete j k) [
          | yes e ↦ let z : i + (j - k) ≡ i = omega arith in rw z (ground (arith, ih, at, e))
          | no n ↦ ground (arith, ih, at, l, n)
        ]
      ]

module _ {V : Type 0} (dflt : V) (m : ℕ) where
  pub length-zero_elems :
      (rounds i : ℕ) (xs : List ℕ) → length (zero_elems dflt m rounds i xs) ≡ length xs
  unfolding zero_elems
  length-zero_elems zero i xs = refl
  length-zero_elems (suc rounds) i xs =
      length-zero_elems rounds (i + 1) (set xs i 0) ∙ length-set xs i 0

  pub get_or-zero_elems :
      (rounds i j : ℕ) (xs : List ℕ)
      → i + rounds ≤ length xs
      → j < i
      → get_or (zero_elems dflt m rounds i xs) j 0 ≡ get_or xs j 0
  unfolding zero_elems
  get_or-zero_elems zero i j xs h g = refl
  get_or-zero_elems (suc rounds) i j xs h g = ground (
    arith,
    get_or-zero_elems rounds (i + 1) j (set xs i 0),
    length-set xs i 0,
    get_or-set xs i j 0 0,
  )

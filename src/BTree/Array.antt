-- ===== src/BTree/Array.antt =====
-- `insert_to_array` of include/btree_common.h: an insertion into an array by swaps from its end.
use nkvdb.Prelude.{
  ℕ, zero, suc, ◌+◌, ◌-◌, ◌≤◌, ◌<◌, ◌≡◌, refl, List, Option, none, some, get_elem?, set, length,
  length-set, get_elem?_of_lt, get_elem?-set, arith, ◌∙◌, ◌&&◌, leb, ℕ_discrete, ltb, ◌==◌,
  if◌then◌else◌,
}

module _ {ℓ} {A : Type ℓ} where
  -- `std::swap(array[i], array[j])`.
  swap_elems : Option A → Option A → ℕ → ℕ → List A → List A
  swap_elems (some a) (some b) i j xs = set (set xs i b) j a
  swap_elems _ _ i j xs = xs

  unfoldable pub swap_at : ℕ → ℕ → List A → List A
  unfolding swap_elems
  swap_at i j xs = swap_elems (get_elem? xs i) (get_elem? xs j) i j xs

  -- `rounds` rounds of the loop, the first at `i`.
  unfoldable pub shift_up : ℕ → ℕ → List A → List A
  shift_up zero i xs = xs
  shift_up (suc rounds) i xs = shift_up rounds (i - 1) (swap_at i (i - 1) xs)

  -- `sz` is at least 1 at every call: the loop runs from `sz - 1` down to `insert_pos + 1`.
  unfoldable pub insert_to_array : ℕ → ℕ → A → List A → List A
  unfolding shift_up swap_at
  insert_to_array sz insert_pos value xs =
      set (shift_up (sz - 1 - insert_pos) (sz - 1) xs) insert_pos value

module _ {A : Type 0} where
  get_elem?-swap_at :
      (xs : List A) (i j k : ℕ)
      → i < length xs
      → j < length xs
      → get_elem? (swap_at i j xs) k
        ≡ (if j == k then get_elem? xs i else if i == k then get_elem? xs j else get_elem? xs k)
  unfolding swap_at
  get_elem?-swap_at xs i j k h g =
      let (a, p) = get_elem?_of_lt xs i h in
      let (b, q) = get_elem?_of_lt xs j g in
      ground
        (arith, p, q, get_elem?-set (set xs i b) j k a, get_elem?-set xs i k b, length-set xs i b)

  length-swap_elems :
      (o p : Option A) (i j : ℕ) (xs : List A) → length (swap_elems o p i j xs) ≡ length xs
  unfolding swap_elems
  length-swap_elems (some a) (some b) i j xs = length-set (set xs i b) j a ∙ length-set xs i b
  length-swap_elems (some a) none i j xs = refl
  length-swap_elems none _ i j xs = refl

  length-swap_at : (xs : List A) (i j : ℕ) → length (swap_at i j xs) ≡ length xs
  unfolding swap_at
  length-swap_at xs i j = length-swap_elems (get_elem? xs i) (get_elem? xs j) i j xs

  length-shift_up : (n i : ℕ) (xs : List A) → length (shift_up n i xs) ≡ length xs
  unfolding shift_up
  length-shift_up zero i xs = refl
  length-shift_up (suc n) i xs =
      length-shift_up n (i - 1) (swap_at i (i - 1) xs) ∙ length-swap_at xs i (i - 1)

  -- After `n` rounds from `i` down, the element of `i` stands at `i - n` and those between have
  -- moved up by one.
  get_elem?-shift_up :
      (n i j : ℕ) (xs : List A)
      → n ≤ i
      → i < length xs
      → get_elem? (shift_up n i xs) j ≡ (
          if j == i - n
          then get_elem? xs i
          else if (ltb (i - n) j && leb j i)
          then get_elem? xs (j - 1)
          else get_elem? xs j)
  unfolding shift_up
  get_elem?-shift_up zero i j xs h g = elim (ℕ_discrete j i) [
    | yes e ↦ rw e (ground arith)
    | no e ↦ ground arith
  ]
  get_elem?-shift_up (suc n) i j xs h g = ground (
    arith,
    get_elem?-shift_up n (i - 1) j (swap_at i (i - 1) xs),
    length-swap_at xs i (i - 1),
    get_elem?-swap_at xs i (i - 1) j,
    get_elem?-swap_at xs i (i - 1) (j - 1),
    get_elem?-swap_at xs i (i - 1) (i - 1),
  )

  pub length-insert_to_array :
      (sz pos : ℕ) (v : A) (xs : List A) → length (insert_to_array sz pos v xs) ≡ length xs
  unfolding insert_to_array
  length-insert_to_array sz pos v xs =
      length-set (shift_up (sz - 1 - pos) (sz - 1) xs) pos v
      ∙ length-shift_up (sz - 1 - pos) (sz - 1) xs

  -- Inserting at a position of the first `sz` elements of an array puts the value there, moves the
  -- elements from there on up by one, of which the last is lost, and leaves what lies past `sz`.
  pub get_elem?-insert_to_array :
      (sz pos j : ℕ) (v : A) (xs : List A)
      → pos < sz
      → sz ≤ length xs
      → get_elem? (insert_to_array sz pos v xs) j ≡ (
          if j == pos
          then some v
          else if (ltb pos j && ltb j sz)
          then get_elem? xs (j - 1)
          else get_elem? xs j)
  unfolding insert_to_array
  get_elem?-insert_to_array sz pos j v xs h g = ground (
    arith,
    get_elem?-set (shift_up (sz - 1 - pos) (sz - 1) xs) pos j v,
    length-shift_up (sz - 1 - pos) (sz - 1) xs,
    get_elem?-shift_up (sz - 1 - pos) (sz - 1) j xs,
  )

  -- At the end of the elements in use there is nothing to move.
  pub insert_to_array_last :
      (n : ℕ) (v : A) (xs : List A) → insert_to_array (n + 1) n v xs ≡ set xs n v
  unfolding insert_to_array
  insert_to_array_last n v xs = let e : n + 1 - 1 - n ≡ 0 = omega arith in rw (e, shift_up)

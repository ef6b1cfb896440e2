-- ===== src/BTree/Nodes/Insert.antt =====
-- `Node::insertValue` of include/btree.hpp against insertion into a sorted list.
use nkvdb.Prelude.{
  ap, ◌∙◌, ℕ, zero, suc, ◌+◌, ◌-◌, ◌≤◌, ◌<◌, ◌≡◌, refl, List, [], ◌∷◌, none, some, get_elem?, take,
  length, arith, ltb, ◌==◌, if◌then◌else◌, get_or, true, list_ext, get_elem?-take,
}
use nkvdb.BTree.Array.{insert_to_array, get_elem?-insert_to_array, insert_to_array_last}
use nkvdb.BTree.Nodes.{Node, insert_value, lower_bound}

module _ {V : Type 0} where
  -- The values in use.
  abbrev pub used : Node V → List (ℕ × V)
  used node = take node.vals_size node.vals

  -- A value put before the first one whose key is not below its own.
  pub insert_sorted : ℕ × V → List (ℕ × V) → List (ℕ × V)
  insert_sorted v [] = v ∷ []
  insert_sorted v (x ∷ xs) = if ltb x.0 v.0 then x ∷ insert_sorted v xs else v ∷ x ∷ xs

  pub lower_bound-le : (key n : ℕ) (xs : List (ℕ × V)) → lower_bound key n xs ≤ n
  unfolding lower_bound
  lower_bound-le key zero xs = omega arith
  lower_bound-le key (suc n) [] = omega arith
  lower_bound-le key (suc n) (x ∷ xs) = ground (arith, lower_bound-le key n xs)

  first-insert_sorted :
      (v : ℕ × V) (n : ℕ) (xs : List (ℕ × V))
      → n ≤ length xs
      → get_elem? (insert_sorted v (take n xs)) 0
        ≡ (if lower_bound v.0 n xs == 0 then some v else get_elem? xs 0)
  unfolding insert_sorted lower_bound
  first-insert_sorted v zero xs h = ground arith
  first-insert_sorted v (suc n) [] h = absurd (omega arith)
  first-insert_sorted v (suc n) (x ∷ xs) h = ground arith

  later-insert_sorted :
      (v : ℕ × V) (n : ℕ) (xs : List (ℕ × V)) (j : ℕ)
      → n ≤ length xs
      → get_elem? (insert_sorted v (take n xs)) (suc j) ≡ (
          if lower_bound v.0 n xs == suc j
          then some v
          else if ltb (lower_bound v.0 n xs) (suc j)
          then (if ltb j n then get_elem? xs j else none)
          else get_elem? xs (suc j))
  unfolding insert_sorted lower_bound
  later-insert_sorted v zero xs j h = ground arith
  later-insert_sorted v (suc n) [] j h = absurd (omega arith)
  later-insert_sorted v (suc n) (x ∷ xs) zero h =
      ground (arith, first-insert_sorted v n xs, get_elem?-take n xs 0)
  later-insert_sorted v (suc n) (x ∷ xs) (suc j) h =
      ground (arith, later-insert_sorted v n xs j, get_elem?-take n xs j)

  -- An insertion into an array, at the lower bound of the key, is one into the sorted values.
  insert_to_array-eq-insert_sorted :
      (v : ℕ × V) (n : ℕ) (xs : List (ℕ × V))
      → n < length xs
      → take (suc n) (insert_to_array (suc n) (lower_bound v.0 n xs) v xs)
        ≡ insert_sorted v (take n xs)
  insert_to_array-eq-insert_sorted v n xs h = list_ext _ _ same
    where
      same :
          (j : ℕ)
          → get_elem? (take (suc n) (insert_to_array (suc n) (lower_bound v.0 n xs) v xs)) j
            ≡ get_elem? (insert_sorted v (take n xs)) j
      same zero = ground (
        arith,
        get_elem?-take (suc n) (insert_to_array (suc n) (lower_bound v.0 n xs) v xs) 0,
        get_elem?-insert_to_array (suc n) (lower_bound v.0 n xs) 0 v xs,
        lower_bound-le v.0 n xs,
        first-insert_sorted v n xs,
      )
      same (suc j) =
          let e : suc j - 1 ≡ j = omega arith in
          let at_j =
            get_elem?-insert_to_array (suc n) (lower_bound v.0 n xs) (suc j) v xs
              (omega (arith, lower_bound-le v.0 n xs)) h in
          ground (
            arith,
            get_elem?-take (suc n) (insert_to_array (suc n) (lower_bound v.0 n xs) v xs) (suc j),
            rw e at at_j,
            lower_bound-le v.0 n xs,
            later-insert_sorted v n xs j,
          )

  lower_bound_first :
      (key n : ℕ) (xs : List (ℕ × V)) (d : V)
      → ltb key (get_or xs 0 (0, d)).0 ≡ true
      → lower_bound key n xs ≡ 0
  unfolding lower_bound
  lower_bound_first key zero xs d h = refl
  lower_bound_first key (suc n) [] d h = refl
  lower_bound_first key (suc n) (x ∷ xs) d h = ground arith

  abbrev pub inserted : ℕ → V → Node V → List (ℕ × V)
  inserted key val node =
      insert_to_array (node.vals_size + 1) (lower_bound key node.vals_size node.vals) (key, val)
        node.vals

  pub vals-insert_value :
      (dflt : V) (key : ℕ) (val : V) (node : Node V)
      → (insert_value dflt key val node).vals ≡ inserted key val node
  unfolding insert_value
  vals-insert_value dflt key val node = ground (
    arith,
    insert_to_array_last node.vals_size (key, val) node.vals,
    lower_bound-le key node.vals_size node.vals,
    lower_bound_first key node.vals_size node.vals dflt,
  )

  others-insert_value :
      (dflt : V) (key : ℕ) (val : V) (node : Node V)
      → insert_value dflt key val node ≡ record node {
        vals = (insert_value dflt key val node).vals;
        vals_size = node.vals_size + 1;
      }
  unfolding insert_value
  others-insert_value dflt key val node = ground arith

  -- Nothing else of the node changes.
  pub insert_value-eq :
      (dflt : V) (key : ℕ) (val : V) (node : Node V)
      → insert_value dflt key val node
        ≡ record node { vals = inserted key val node; vals_size = node.vals_size + 1 }
  insert_value-eq dflt key val node =
      others-insert_value dflt key val node
      ∙ ap (λ xs. record node { vals = xs; vals_size = node.vals_size + 1 })
          (vals-insert_value dflt key val node)

  pub vals_size-insert_value :
      (dflt : V) (key : ℕ) (val : V) (node : Node V)
      → (insert_value dflt key val node).vals_size ≡ suc node.vals_size
  unfolding insert_value
  vals_size-insert_value dflt key val node = ground arith

  -- While the array of a node has room, `insertValue` puts the value among those in use before the
  -- first one whose key is not below, and moves none of the others out of order.
  pub used-insert_value :
      (dflt : V) (key : ℕ) (val : V) (node : Node V)
      → node.vals_size < length node.vals
      → used (insert_value dflt key val node) ≡ insert_sorted (key, val) (used node)
  used-insert_value dflt key val node h =
      let e : node.vals_size + 1 ≡ suc node.vals_size = omega arith in
      rw (vals-insert_value dflt key val node, vals_size-insert_value dflt key val node, e)
        (insert_to_array-eq-insert_sorted (key, val) node.vals_size node.vals h)

  -- The keys do not fall along a list of values, the first of them being at least `k`.
  abbrev pub SortedFrom : ℕ → List (ℕ × V) → Type 0
  SortedFrom k [] = Unit {0}
  SortedFrom k (x ∷ xs) = (k ≤ x.0) × SortedFrom x.0 xs

  SortedFrom-insert_sorted :
      (k : ℕ) (v : ℕ × V) (xs : List (ℕ × V))
      → k ≤ v.0
      → SortedFrom k xs
      → SortedFrom k (insert_sorted v xs)
  unfolding insert_sorted
  SortedFrom-insert_sorted k v [] h s = (h, tt)
  SortedFrom-insert_sorted k v (x ∷ xs) h s = ground (arith, SortedFrom-insert_sorted x.0 v xs)

  -- The values in use of a node stay sorted by their keys.
  pub insert_value-SortedFrom :
      (dflt : V) (key : ℕ) (val : V) (node : Node V)
      → node.vals_size < length node.vals
      → SortedFrom 0 (used node)
      → SortedFrom 0 (used (insert_value dflt key val node))
  insert_value-SortedFrom dflt key val node h s =
      rw (used-insert_value dflt key val node h)
        (SortedFrom-insert_sorted 0 (key, val) (used node) (omega arith) s)

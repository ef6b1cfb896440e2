-- ===== src/BTree/Shape/Search.antt =====
-- The search of include/btree.hpp in a tree, and the leaf in which it ends.
use nkvdb.Prelude.{
  ℕ, zero, suc, ◌+◌, ◌-◌, ◌*◌, ◌≤◌, ◌<◌, ◌≡◌, refl, ap, ◌∙◌, inl, inr, true, false, List, [], ◌∷◌,
  Option, some, arith, get_or, length, dec_lt, ℕ_discrete,
}
use nkvdb.Prelude.Result.{ok}
use nkvdb.BTree.{BTree, next_child, find_in_leaf, iner_find}
use nkvdb.BTree.Nodes.{Node, lower_bound}
use nkvdb.BTree.Nodes.Insert.{lower_bound-le}
use nkvdb.BTree.Shape.{Ghost, child_at, key_at, bound, IsTree, IsSized}

-- The place that `std::lower_bound` gives.
pub record IsLowerBound {V : Type 0} (dflt : V) (key : ℕ) (node : Node V) (d : ℕ) : Type 0 where
  pub most : d ≤ node.vals_size
  pub before : (i : ℕ) → i < d → key_at dflt node i < key
  pub at : d < node.vals_size → key ≤ key_at dflt node d

lower_bound_before :
    {V : Type 0} (dflt : V) (key m : ℕ) (xs : List (ℕ × V)) (i : ℕ)
    → i < lower_bound key m xs
    → (get_or xs i (0, dflt)).0 < key
unfolding lower_bound
lower_bound_before dflt key zero xs i h = absurd (omega arith)
lower_bound_before dflt key (suc m) [] i h = absurd (omega arith)
lower_bound_before dflt key (suc m) (x ∷ xs) zero h = ground arith
lower_bound_before dflt key (suc m) (x ∷ xs) (suc i) h =
    ground (arith, lower_bound_before dflt key m xs i)

lower_bound_at :
    {V : Type 0} (dflt : V) (key m : ℕ) (xs : List (ℕ × V))
    → m ≤ length xs
    → lower_bound key m xs < m
    → key ≤ (get_or xs (lower_bound key m xs) (0, dflt)).0
unfolding lower_bound
lower_bound_at dflt key zero xs l h = absurd (omega arith)
lower_bound_at dflt key (suc m) [] l h = absurd (omega arith)
lower_bound_at dflt key (suc m) (x ∷ xs) l h = ground (arith, lower_bound_at dflt key m xs)

pub lower_bound-IsLowerBound :
    {V : Type 0} (dflt : V) (key : ℕ) (node : Node V)
    → node.vals_size ≤ length node.vals
    → IsLowerBound dflt key node (lower_bound key node.vals_size node.vals)
lower_bound-IsLowerBound dflt key node h = record {
  most = lower_bound-le key node.vals_size node.vals;
  before = lower_bound_before dflt key node.vals_size node.vals;
  at = lower_bound_at dflt key node.vals_size node.vals h;
}

IsLowerBound-inside :
    {V : Type 0} (dflt : V) (key : ℕ) (node : Node V) (d : ℕ)
    → IsLowerBound dflt key node d
    → 0 < node.vals_size
    → key < key_at dflt node (node.vals_size - 1)
    → d < node.vals_size
IsLowerBound-inside dflt key node d b some_val h = elim (dec_lt d node.vals_size) [
  | yes l ↦ l
  | no l ↦ absurd (omega (arith, h, b.before (node.vals_size - 1) (omega arith)))
]

pub bound-suc :
    {V : Type 0} (dflt : V) (node : Node V) (l h i : ℕ)
    → i < node.vals_size
    → bound dflt node l h (i + 1) ≡ key_at dflt node i
bound-suc dflt node l h i le = let e : i + 1 - 1 ≡ i = omega arith in rw e (ground arith)

pub bound_end :
    {V : Type 0} (dflt : V) (node : Node V) (l h i : ℕ)
    → node.vals_size ≤ i
    → bound dflt node l h (i + 1) ≡ h
bound_end dflt node l h i le = ground arith

pub bound_pred :
    {V : Type 0} (dflt : V) (node : Node V) (l h i : ℕ)
    → 0 < i
    → i ≤ node.vals_size
    → bound dflt node l h i ≡ key_at dflt node (i - 1)
bound_pred dflt node l h i pos le = ground arith

-- The search goes on in the child to whose keys the key belongs.
pub next_child-bound :
    {V : Type 0} (dflt : V) (n key l h : ℕ) (node : Node V)
    → node.vals_size ≤ length node.vals
    → node.childs_size ≡ node.vals_size + 1
    → 0 < node.vals_size
    → ((i j : ℕ) → i < j → j < node.vals_size → key_at dflt node i < key_at dflt node j)
    → l ≤ key
    → key < h
    → (i : ℕ) × (i ≤ node.vals_size)
      × (next_child dflt n key node ≡ some (child_at node i))
      × (bound dflt node l h i ≤ key)
      × (key < bound dflt node l h (i + 1))
unfolding next_child
next_child-bound dflt n key l h node long count some_val sorted from below =
    let low = lower_bound key node.vals_size node.vals in
    let b = lower_bound-IsLowerBound dflt key node long in
    let last = node.vals_size - 1 in
    elim (dec_lt key (key_at dflt node 0)) [
      | yes first ↦ (0, omega arith, ground (arith, first), omega arith, ground (arith, first))
      | no first ↦ elim (dec_lt key (key_at dflt node last)) [
        | no past ↦
            let e : node.childs_size - 1 ≡ node.vals_size = omega arith in
            (
              node.vals_size,
              omega arith,
              ground (arith, first, past, e),
              ground (arith, past),
              ground arith,
            )
        | yes inside ↦ elim (ℕ_discrete (key_at dflt node low) key) [
          | yes same ↦
              let l' : low < node.vals_size =
                IsLowerBound-inside dflt key node low b some_val inside in
              let u : low < last = elim (ℕ_discrete low last) [
                | yes e ↦ absurd (omega (arith, inside, same, ap (key_at dflt node) e))
                | no e ↦ omega arith
              ] in
              let next_key = sorted low (low + 1) (omega arith) (omega arith) in
              (
                low + 1,
                omega arith,
                ground (arith, first, inside, same, next_key),
                omega (arith, bound-suc dflt node l h low l', same),
                omega (arith, bound-suc dflt node l h (low + 1) (omega arith), same, next_key),
              )
          | no other ↦
              let l' : low < node.vals_size =
                IsLowerBound-inside dflt key node low b some_val inside in
              let at_low = b.at l' in
              let u : 0 < low = elim (ℕ_discrete low 0) [
                | yes e ↦ absurd (omega (arith, first, other, at_low, ap (key_at dflt node) e))
                | no e ↦ omega arith
              ] in
              let e : low - 1 + 1 ≡ low = omega arith in
              (
                low,
                omega arith,
                ground (arith, first, inside, other, at_low, e),
                omega (
                  arith,
                  b.before (low - 1) (omega arith),
                  ap (bound dflt node l h) e,
                  bound-suc dflt node l h (low - 1) (omega arith),
                ),
                omega (arith, bound-suc dflt node l h low l', at_low, other),
              )
        ]
      ]
    ]

module _ {V : Type 0} (dflt : V) (n : ℕ) (g : Ghost) where
  -- A leaf of the tree to which the key belongs.
  pub record IsLeafOf (cache : ℕ → Node V) (key x : ℕ) : Type 0 where
    pub alive : g.live x ≡ true
    pub leaf : (cache x).is_leaf ≡ true
    pub from : g.lo x ≤ key
    pub below : key < g.hi x

  step_leaf :
      (fuel key x : ℕ) (o : Option ℕ) (r : V) (t : BTree V)
      → (t.cache x).is_leaf ≡ true
      → iner_find dflt n (suc fuel) key x o r t ≡ ok (find_in_leaf dflt n key x (t.cache x) r)
  unfolding iner_find
  step_leaf fuel key x o r t e = rw (iner_find, e) refl

  step_inner :
      (fuel key x c : ℕ) (o : Option ℕ) (r : V) (t : BTree V)
      → (t.cache x).is_leaf ≡ false
      → next_child dflt n key (t.cache x) ≡ some c
      → iner_find dflt n (suc fuel) key x o r t ≡ iner_find dflt n fuel key c o r t
  unfolding iner_find
  step_inner fuel key x c o r t e h = rw (iner_find, e, h) refl

  pub IsSized-inner : (node : Node V) → IsSized n node → node.is_leaf ≡ false → 0 < node.vals_size
  IsSized-inner node (inl l) e = absurd (ground (arith, l.0, e))
  IsSized-inner node (inr i) e = i.1

  pub IsSized-le : (node : Node V) → IsSized n node → node.vals_size ≤ n * 2
  IsSized-le node (inl l) = omega (arith, l.1)
  IsSized-le node (inr i) = omega (arith, i.2)

  -- The search from a node to which the key belongs ends in such a leaf.
  pub iner_find-IsLeafOf :
      (fuel key x root : ℕ) (o : Option ℕ) (r : V) (t : BTree V)
      → IsTree dflt t.cache g n root
      → ((y : ℕ) → g.live y ≡ true → IsSized n (t.cache y))
      → g.live x ≡ true
      → g.lo x ≤ key
      → key < g.hi x
      → g.level x < fuel
      → (z : ℕ) × IsLeafOf t.cache key z
        × (iner_find dflt n fuel key x o r t ≡ ok (find_in_leaf dflt n key z (t.cache z) r))
  iner_find-IsLeafOf zero key x root o r t tree sized alive from below enough = absurd (omega arith)
  iner_find-IsLeafOf (suc fuel) key x root o r t tree sized alive from below enough =
      let node = tree.node x alive in
      elim node.kind [
        | inl f ↦ (
          x,
          record { alive = alive; leaf = f.leaf; from = from; below = below },
          step_leaf fuel key x o r t f.leaf,
        )
        | inr i ↦
            let some_val = IsSized-inner (t.cache x) (sized x alive) i.inner in
            let (j, le, e, l, h) =
              next_child-bound dflt n key (g.lo x) (g.hi x) (t.cache x)
                (omega (arith, IsSized-le (t.cache x) (sized x alive), node.vals_long))
                i.childs_count some_val node.sorted from below in
            let c = i.child j le in
            let (z, leaf, end) =
              iner_find-IsLeafOf fuel key (child_at (t.cache x) j) root o r t tree sized c.alive
                (omega (arith, l, c.lo_is)) (omega (arith, h, c.hi_is))
                (omega (arith, c.level_is)) in
            (z, leaf, step_inner fuel key x (child_at (t.cache x) j) o r t i.inner e ∙ end)
      ]

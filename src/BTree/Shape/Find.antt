-- ===== src/BTree/Shape/Find.antt =====
-- `find` of include/btree.hpp on the keys that a tree stores.
use nkvdb.Prelude.{ℕ, ◌*◌, ◌≤◌, ◌<◌, ◌≡◌, refl, ap, inl, inr, true, some, arith, word, dec_lt}
use mathlib.Core.Path.{subst}
use nkvdb.Prelude.Result.{ok}
use nkvdb.BTree.{BTree, find, find_in_leaf}
use nkvdb.BTree.Nodes.{Node, lower_bound}
use nkvdb.BTree.Shape.{Ghost, Has, key_at, IsNodeAt, IsTree, IsSized}
use nkvdb.BTree.Shape.Search.{lower_bound-IsLowerBound, IsLeafOf, iner_find-IsLeafOf, IsSized-le}
use nkvdb.BTree.Shape.Unique.{live_unique}

module _ {V : Type 0} (dflt : V) where
  pub lower_bound_place :
      (n root x i : ℕ) (cache : ℕ → Node V) (g : Ghost)
      → IsNodeAt dflt cache g n root x
      → (cache x).vals_size ≤ n * 2
      → i < (cache x).vals_size
      → lower_bound (key_at dflt (cache x) i) (cache x).vals_size (cache x).vals ≡ i
  lower_bound_place n root x i cache g node le h =
      let key = key_at dflt (cache x) i in
      let d = lower_bound key (cache x).vals_size (cache x).vals in
      let b = lower_bound-IsLowerBound dflt key (cache x) (omega (arith, node.vals_long)) in
      elim (dec_lt i d) [
        | yes l ↦ absurd (omega (arith, b.before i l))
        | no l ↦ elim (dec_lt d i) [
          | yes l' ↦ absurd (omega (arith, b.at (omega arith), node.sorted d i l' h))
          | no l' ↦ omega arith
        ]
      ]

  module _ (n : ℕ) (g : Ghost) (t : BTree V) where
    leaf_level :
        (root x : ℕ)
        → IsTree dflt t.cache g n root
        → g.live x ≡ true
        → (t.cache x).is_leaf ≡ true
        → g.level x ≡ 0
    leaf_level root x tree alive leaf = elim (tree.node x alive).kind [
      | inl f ↦ f.level_is
      | inr i ↦ absurd (ground (arith, leaf, i.inner))
    ]

    leaf_lo :
        (root x i : ℕ)
        → IsTree dflt t.cache g n root
        → g.live x ≡ true
        → (t.cache x).is_leaf ≡ true
        → i < (t.cache x).vals_size
        → g.lo x ≤ key_at dflt (t.cache x) i
    leaf_lo root x i tree alive leaf h = elim (tree.node x alive).kind [
      | inl f ↦ f.from_lo i h
      | inr k ↦ absurd (ground (arith, leaf, k.inner))
    ]

    -- The leaf in which a search for a stored key ends is the one that stores it.
    has_leaf :
        (key z : ℕ) (val : V)
        → IsTree dflt t.cache g n t.root
        → (has : Has dflt t.cache g key val) → IsLeafOf dflt n g t.cache key z
        → has.leaf ≡ z
    has_leaf key z val tree has at =
        let level = leaf_level t.root has.leaf tree has.alive has.is_leaf in
        let level' = leaf_level t.root z tree at.alive at.leaf in
        let key_is = ap (λ (v : ℕ × V). v.0) has.val_is in
        live_unique dflt n t.cache g t.root tree (g.level t.root) has.leaf z key has.alive at.alive
          (omega arith) (omega arith)
          (omega (
            arith,
            leaf_lo t.root has.leaf has.place tree has.alive has.is_leaf has.in_range,
            key_is,
          ))
          (omega (arith, (tree.node has.leaf has.alive).below_hi has.place has.in_range, key_is))
          at.from at.below

    find_in_leaf-Has :
        (key : ℕ) (val r : V)
        → IsTree dflt t.cache g n t.root
        → ((y : ℕ) → g.live y ≡ true → IsSized n (t.cache y))
        → (has : Has dflt t.cache g key val)
        → find_in_leaf dflt n key has.leaf (t.cache has.leaf) r
          ≡ record { found = true; out_ptr = some has.leaf; out_res = val }
    unfolding find_in_leaf
    find_in_leaf-Has key val r tree sized has =
        let leaf = t.cache has.leaf in
        let at =
          lower_bound_place n t.root has.leaf has.place t.cache g (tree.node has.leaf has.alive)
            (IsSized-le dflt n g leaf (sized has.leaf has.alive)) has.in_range in
        let low =
          subst (λ k. lower_bound k leaf.vals_size leaf.vals ≡ has.place)
            (ap (λ (v : ℕ × V). v.0) has.val_is) at in
        let val_is = ap (λ (v : ℕ × V). v.1) has.val_is in
        let h = has.in_range in ground (arith, low, val_is, h)

    -- In a tree with no node too full, with fuel more than its height, `find` gives the value for
    -- every key of 64 bits that a leaf of the tree stores.
    pub find-Has :
        (fuel key : ℕ) (val : V)
        → IsTree dflt t.cache g n t.root
        → ((y : ℕ) → g.live y ≡ true → IsSized n (t.cache y))
        → Has dflt t.cache g key val
        → key < word
        → g.level t.root < fuel
        → find dflt n fuel key t ≡ ok val
    unfolding find
    find-Has fuel key val tree sized has small enough =
        let (z, at, end) =
          iner_find-IsLeafOf dflt n g fuel key t.root t.root (some t.root) dflt t tree sized
            tree.root_live (omega (arith, tree.root_lo)) (omega (arith, tree.root_hi)) enough in
        let in_leaf = find_in_leaf-Has key val dflt tree sized has in
        let e = has_leaf key z val tree has at in
        let same =
          subst
            (λ x.
              find_in_leaf dflt n key x (t.cache x) dflt
              ≡ record { found = true; out_ptr = some x; out_res = val })
            e in_leaf in
        rw (end, same) refl

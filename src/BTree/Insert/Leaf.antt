-- ===== src/BTree/Insert/Leaf.antt =====
-- The leaf of a tree of include/btree.hpp that is given a value, and the tree with it.
use nkvdb.Prelude.{
  ℕ, ◌+◌, ◌-◌, ◌≤◌, ◌<◌, ◌≡◌, inl, inr, sym, ap, ◌∙◌, arith, dec_lt, ℕ_discrete, length,
}
use mathlib.Core.Path.{subst}
use nkvdb.BTree.{BTree}
use nkvdb.BTree.Array.{length-insert_to_array}
use nkvdb.BTree.Nodes.{Node, val_at}
use nkvdb.BTree.Move.Up.{with_value_at}
use nkvdb.BTree.Shape.{Ghost, key_at, IsTree, IsLeafAt, IsNodeAt}
use nkvdb.BTree.Insert.{
  Inserting, inserted, at_w, shape_same, parent_same, next_kept, above_kept, other_node,
}

module _ {V : Type 0} (dflt : V) (n key : ℕ) (val : V) (w d : ℕ) (g : Ghost) (t : BTree V)
    (s : Inserting dflt n key val w d g t) where
  abbrev now : BTree V
  now = inserted dflt n key val w d g t

  abbrev old : Node V
  old = t.cache w

  -- A value of the leaf is an old one or the new one.
  pub data LeafVal (i : ℕ) (v : ℕ × V) : Type 0 where
    before_new : i < d → v ≡ val_at dflt (t.cache w) i → LeafVal i v
    at_new : i ≡ d → v ≡ (key, val) → LeafVal i v
    after_new : d < i → v ≡ val_at dflt (t.cache w) (i - 1) → LeafVal i v

  pub key_of : {u v : ℕ × V} → u ≡ v → u.0 ≡ v.0
  key_of e = ap (λ (z : ℕ × V). z.0) e

  pub size_is : ((inserted dflt n key val w d g t).cache w).vals_size ≡ (t.cache w).vals_size + 1
  size_is = ap (λ (y : Node V). y.vals_size) (at_w dflt n key val w d g t s)

  pub leaf_val :
      (i : ℕ)
      → i ≤ (t.cache w).vals_size
      → LeafVal i (val_at dflt ((inserted dflt n key val w d g t).cache w) i)
  leaf_val i l =
      let v =
        ap (λ (y : Node V). val_at dflt y i) (at_w dflt n key val w d g t s)
        ∙ with_value_at dflt n key val (t.cache w) d s.belongs i l in
      elim (dec_lt i d) [
        | yes lt ↦ before_new lt (ground (arith, v, lt))
        | no ge ↦ elim (ℕ_discrete i d) [
          | yes e ↦ at_new e (ground (arith, v, e))
          | no ne ↦ after_new (omega arith) (ground (arith, v, ge, ne))
        ]
      ]

  node_w : IsNodeAt dflt t.cache g n t.root w
  node_w = s.tree.node w s.alive

  LeafVal-lt :
      (i j : ℕ) (u v : ℕ × V)
      → i < j
      → j ≤ (t.cache w).vals_size
      → LeafVal i u
      → LeafVal j v
      → u.0 < v.0
  LeafVal-lt i j u v l q (before_new a e) (before_new b e') =
      omega (arith, key_of e, key_of e', node_w.sorted i j l (omega (arith, s.belongs.in_range)))
  LeafVal-lt i j u v l q (before_new a e) (at_new b e') =
      omega (arith, key_of e, key_of e', s.belongs.before i a)
  LeafVal-lt i j u v l q (before_new a e) (after_new b e') = omega (
    arith,
    key_of e,
    key_of e',
    s.belongs.before i a,
    s.belongs.after (j - 1) (omega arith) (omega arith),
  )
  LeafVal-lt i j u v l q (at_new a e) (after_new b e') =
      omega (arith, key_of e, key_of e', s.belongs.after (j - 1) (omega arith) (omega arith))
  LeafVal-lt i j u v l q (after_new a e) (after_new b e') =
      omega (arith, key_of e, key_of e', node_w.sorted (i - 1) (j - 1) (omega arith) (omega arith))
  LeafVal-lt i j u v l q (at_new a e) (before_new b e') = absurd (omega arith)
  LeafVal-lt i j u v l q (at_new a e) (at_new b e') = absurd (omega arith)
  LeafVal-lt i j u v l q (after_new a e) (before_new b e') = absurd (omega arith)
  LeafVal-lt i j u v l q (after_new a e) (at_new b e') = absurd (omega arith)

  old_leaf : IsLeafAt dflt t.cache g w
  old_leaf = elim node_w.kind [ inl l ↦ l | inr k ↦ absurd (ground (arith, s.leaf, k.inner)) ]

  LeafVal-inside :
      (i : ℕ) (v : ℕ × V)
      → i ≤ (t.cache w).vals_size
      → LeafVal i v
      → (g.lo w ≤ v.0) × (v.0 < g.hi w)
  LeafVal-inside i v l (before_new a e) =
      let l' : i < (t.cache w).vals_size = omega (arith, s.belongs.in_range) in
      (
        omega (arith, old_leaf.from_lo i l', key_of e),
        omega (arith, node_w.below_hi i l', key_of e),
      )
  LeafVal-inside i v l (at_new a e) =
      (omega (arith, s.from, key_of e), omega (arith, s.below, key_of e))
  LeafVal-inside i v l (after_new a e) =
      let l' : i - 1 < (t.cache w).vals_size = omega arith in
      (
        omega (arith, old_leaf.from_lo (i - 1) l', key_of e),
        omega (arith, node_w.below_hi (i - 1) l', key_of e),
      )

  leaf_node : IsNodeAt dflt now.cache g n t.root w
  leaf_node =
      let is = shape_same dflt n key val w d g t s w in
      let at = at_w dflt n key val w d g t s in
      let inside : (i : ℕ)
          → i < (now.cache w).vals_size
          → (g.lo w ≤ key_at dflt (now.cache w) i) × (key_at dflt (now.cache w) i < g.hi w) =
        λ i q. LeafVal-inside i _ (omega (arith, size_is)) (leaf_val i (omega (arith, size_is))) in
      record {
        id_is = ap (λ (y : Node V). y.id) is ∙ node_w.id_is;
        vals_long =
            ap (λ (y : Node V). length y.vals) at
            ∙ length-insert_to_array (old.vals_size + 1) d (key, val) old.vals
            ∙ node_w.vals_long;
        childs_long = ap (λ (y : Node V). length y.childs) is ∙ node_w.childs_long;
        some_key = node_w.some_key;
        below_hi = λ i q. (inside i q).1;
        sorted = λ i j q r.
            LeafVal-lt i j _ _ q (omega (arith, size_is)) (leaf_val i (omega (arith, size_is)))
              (leaf_val j (omega (arith, size_is)));
        kind = inl (record {
          leaf = ap (λ (y : Node V). y.is_leaf) is ∙ s.leaf;
          childless = ap (λ (y : Node V). y.childs_size) is ∙ old_leaf.childless;
          level_is = old_leaf.level_is;
          from_lo = λ i q. (inside i q).0;
          next_is = next_kept dflt n key val w d g t s w old_leaf.next_is;
        });
        above = above_kept dflt n key val w d g t s w node_w.above;
      }

  pub inserted-IsTree : IsTree dflt (inserted dflt n key val w d g t).cache g n t.root
  inserted-IsTree = record {
    null = s.tree.null;
    root_live = s.tree.root_live;
    root_lo = s.tree.root_lo;
    root_hi = s.tree.root_hi;
    root_top = parent_same dflt n key val w d g t s t.root ∙ s.tree.root_top;
    deep = s.tree.deep;
    node = λ x alive. elim (ℕ_discrete x w) [
      | yes e ↦ subst (IsNodeAt dflt now.cache g n t.root) (sym e) leaf_node
      | no ne ↦ other_node dflt n key val w d g t s x ne (s.tree.node x alive)
    ];
  }

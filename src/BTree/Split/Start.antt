-- ===== src/BTree/Split/Start.antt =====
-- The first half of `split_node` of include/btree.hpp on a node of a tree.
use nkvdb.Prelude.{
  ℕ, ◌+◌, ◌/◌, ◌≤◌, ◌<◌, ◌≡◌, ◌≢◌, inl, inr, sym, ap, ◌∙◌, true, arith, ◌==◌, if◌then◌else◌, length,
}
use mathlib.Core.Path.{subst}
use nkvdb.Prelude.Result.{ok}
use nkvdb.BTree.{BTree, make_node, move_half}
use nkvdb.BTree.Nodes.{Node}
use nkvdb.BTree.Shape.{Ghost, child_at, key_at}
use nkvdb.BTree.Move.Halves.{IsFresh, IsMoved, leaf_moved}
use nkvdb.BTree.Move.Inner.{inner_moved}
use nkvdb.BTree.Split.{IsOver}

module _ {V : Type 0} (dflt : V) (n : ℕ) (g : Ghost) (t : BTree V) (w : ℕ) (big : 2 ≤ n)
    (o : IsOver dflt n g t w) where
  abbrev pub c : ℕ
  c = t.cache_pos

  -- The nodes after `make_node`.
  abbrev pub made : BTree V
  made = record t {
    cache = λ x.
        if x == t.cache_pos then record (t.cache t.cache_pos) { id = t.cache_pos } else t.cache x;
    cache_pos = t.cache_pos + 1;
  }

  pub make_node-made : t.cache_pos ≤ t.cache_size → make_node dflt n t ≡ ok (t.cache_pos, made)
  unfolding make_node
  make_node-made room = ground (arith, room)

  pub ne_new : (x : ℕ) → g.live x ≡ true → x ≢ c
  ne_new x alive e = absurd (ground (arith, alive, o.free c (omega arith), e))

  pub made_old : (x : ℕ) → x ≢ c → made.cache x ≡ t.cache x
  made_old x ne = ground (arith, ne)

  pub made_w : made.cache w ≡ t.cache w
  made_w = made_old w (ne_new w o.alive)

  made_new : made.cache c ≡ record (t.cache c) { id = c }
  made_new = ground arith

  made-IsFresh : IsFresh n (made.cache c)
  made-IsFresh =
      let f = o.fresh c (omega arith) in
      record {
        no_vals = ap (λ (y : Node V). y.vals_size) made_new ∙ f.no_vals;
        no_childs = ap (λ (y : Node V). y.childs_size) made_new ∙ f.no_childs;
        no_parent = ap (λ (y : Node V). y.parent) made_new ∙ f.no_parent;
        not_leaf = ap (λ (y : Node V). y.is_leaf) made_new ∙ f.not_leaf;
        vals_long = ap (λ (y : Node V). length y.vals) made_new ∙ f.vals_long;
        childs_long = ap (λ (y : Node V). length y.childs) made_new ∙ f.childs_long;
      }

  abbrev pub half : ℕ
  half = (t.cache w).vals_size / 2

  -- The values and children of the node are halved.
  pub half_moved : IsMoved dflt n made.cache (move_half dflt n w c made).cache w c half
  half_moved =
      let node = o.tree.node w o.alive in
      let id = ap (λ (y : Node V). y.id) made_new in
      let long = ap (λ (y : Node V). length y.vals) made_w ∙ node.vals_long in
      let childs_long = ap (λ (y : Node V). length y.childs) made_w ∙ node.childs_long in
      let w_c = ne_new w o.alive in
      let is_leaf = ap (λ (y : Node V). y.is_leaf) made_w in
      elim o.full [
        | inl f ↦ elim node.kind [
          | inl l ↦
              let e : n ≡ half = omega (arith, f.1) in
              subst (λ k. IsMoved dflt n made.cache (move_half dflt n w c made).cache w c k) e
                (leaf_moved dflt n w c made w_c big made-IsFresh id long childs_long (is_leaf ∙ f.0)
                  (ap (λ (y : Node V). y.childs_size) made_w ∙ l.childless)
                  (ap (λ (y : Node V). y.vals_size) made_w ∙ f.1))
          | inr k ↦ absurd (ground (arith, f.0, k.inner))
        ]
        | inr f ↦ elim node.kind [
          | inl l ↦ absurd (ground (arith, f.0, l.leaf))
          | inr k ↦
              let childs = ap (λ (y : Node V). y.childs_size) made_w ∙ k.childs_count ∙ f.1 in
              inner_moved dflt n w c made w_c big made-IsFresh id long childs_long (is_leaf ∙ f.0)
                (ap (λ (y : Node V). y.vals_size + 1) made_w ∙ f.1) childs
                (λ i l.
                  let child = k.child (n + i) (omega (arith, f.1)) in
                  let x = child_at (t.cache w) (n + i) in
                  let same = ap (λ (y : Node V). child_at y (n + i)) made_w in
                  (
                    λ e. absurd (omega (arith, child.level_is, ap g.level (sym same ∙ e))),
                    λ e. ne_new x child.alive (sym same ∙ e),
                  ))
                half (omega (arith, f.1))
        ]
      ]

  -- The value in the middle stands after the first one, and its key between the bounds of the node.
  pub half-lt : half < (t.cache w).vals_size
  half-lt = elim o.full [ inl f ↦ omega (arith, f.1, big) | inr f ↦ omega (arith, f.1, big) ]

  pub half_pos : 0 < half
  half_pos = elim o.full [ inl f ↦ omega (arith, f.1, big) | inr f ↦ omega (arith, f.1, big) ]

  pub mid-lt-hi : key_at dflt (t.cache w) half < g.hi w
  mid-lt-hi = (o.tree.node w o.alive).below_hi half half-lt

  pub lo-lt-mid : g.lo w < key_at dflt (t.cache w) half
  lo-lt-mid =
      let node = o.tree.node w o.alive in
      elim node.kind [
        | inl l ↦
            omega (arith, l.from_lo 0 (omega (arith, half-lt)), node.sorted 0 half half_pos half-lt)
        | inr i ↦ i.from_lo half half-lt
      ]

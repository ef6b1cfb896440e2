-- ===== src/BTree/Split/Raised.antt =====
-- The tree of include/btree.hpp with the new root above the old one.
use nkvdb.Prelude.{
  ℕ, ◌≤◌, ◌≡◌, ◌⊎◌, inl, inr, refl, sym, ap, ◌∙◌, true, arith, ℕ_discrete, length, set, length-set,
  word,
}
use mathlib.Core.Path.{subst}
use nkvdb.BTree.{BTree}
use nkvdb.BTree.Nodes.{Node, val_at}
use nkvdb.BTree.Shape.{Ghost, key_at, IsTree, IsInnerAt, IsLeafAt, IsNodeAt, IsChildAt, Has}
use nkvdb.BTree.Split.{IsOver}
use nkvdb.BTree.Split.Root.{
  r, raised, raised_ghost, raised_root, IsFresh-root, live_of, lo_of, hi_of, level_of, level_root,
  same, next_kept, child_kept, root_child, above_kept,
}

module _ {V : Type 0} (dflt : V) (n : ℕ) (g : Ghost) (t : BTree V) (big : 2 ≤ n)
    (o : IsOver dflt n g t t.root) where
  abbrev root : ℕ
  root = r dflt n g t big o

  abbrev now : ℕ → Node V
  now = raised dflt n g t big o

  abbrev gh : Ghost
  gh = raised_ghost dflt n g t big o

  module _ (x : ℕ) (alive : g.live x ≡ true) where
    is : now x ≡ record (t.cache x) { parent = (now x).parent }
    is = same dflt n g t big o x alive

    key_same : (i : ℕ) → key_at dflt (now x) i ≡ key_at dflt (t.cache x) i
    key_same i = ap (λ (node : Node V). key_at dflt node i) is

    size_same : (now x).vals_size ≡ (t.cache x).vals_size
    size_same = ap (λ (node : Node V). node.vals_size) is

    leaf_kept : IsLeafAt dflt t.cache g x → IsLeafAt dflt now gh x
    leaf_kept l = record {
      leaf = ap (λ (node : Node V). node.is_leaf) is ∙ l.leaf;
      childless = ap (λ (node : Node V). node.childs_size) is ∙ l.childless;
      level_is = level_of dflt n g t big o x alive ∙ l.level_is;
      from_lo = λ i q. omega (
        arith,
        l.from_lo i (omega (arith, size_same)),
        key_same i,
        lo_of dflt n g t big o x alive,
      );
      next_is = next_kept dflt n g t big o x alive l.next_is;
    }

    inner_kept : IsInnerAt dflt t.cache g x → IsInnerAt dflt now gh x
    inner_kept l = record {
      inner = ap (λ (node : Node V). node.is_leaf) is ∙ l.inner;
      childs_count =
          omega (arith, ap (λ (node : Node V). node.childs_size) is, l.childs_count, size_same);
      from_lo = λ i q. omega (
        arith,
        l.from_lo i (omega (arith, size_same)),
        key_same i,
        lo_of dflt n g t big o x alive,
      );
      child = λ i q. child_kept dflt n g t big o x i alive (l.child i (omega (arith, size_same)));
    }

    node_kept : IsNodeAt dflt now gh n root x
    node_kept =
        let node = o.tree.node x alive in
        let lo = lo_of dflt n g t big o x alive in
        let hi = hi_of dflt n g t big o x alive in
        record {
          id_is = ap (λ (node : Node V). node.id) is ∙ node.id_is;
          vals_long = ap (λ (node : Node V). length node.vals) is ∙ node.vals_long;
          childs_long = ap (λ (node : Node V). length node.childs) is ∙ node.childs_long;
          some_key = omega (arith, node.some_key, lo, hi);
          below_hi =
              λ i q. omega (arith, node.below_hi i (omega (arith, size_same)), key_same i, hi);
          sorted = λ i j q r.
              omega (arith, node.sorted i j q (omega (arith, size_same)), key_same i, key_same j);
          kind = elim node.kind [ inl l ↦ inl (leaf_kept l) | inr i ↦ inr (inner_kept i) ];
          above = inr (above_kept dflt n g t big o x alive);
        }

  at_root : now root ≡ record (t.cache root) {
    id = root;
    childs = set (t.cache root).childs 0 t.root;
    childs_size = 1;
  }
  at_root = raised_root dflt n g t big o

  pub root_empty : (now root).vals_size ≡ 0
  root_empty = ap (λ (y : Node V). y.vals_size) at_root ∙ (IsFresh-root dflt n g t big o).no_vals

  root_node_at : IsNodeAt dflt now gh n root root
  root_node_at =
      let f = IsFresh-root dflt n g t big o in
      let none_in = root_empty in
      record {
        id_is = ap (λ (y : Node V). y.id) at_root;
        vals_long = ap (λ (y : Node V). length y.vals) at_root ∙ f.vals_long;
        childs_long =
            ap (λ (y : Node V). length y.childs) at_root
            ∙ length-set (t.cache root).childs 0 t.root
            ∙ f.childs_long;
        some_key =
            let lo : gh.lo root ≡ 0 = ground arith in
            let hi : gh.hi root ≡ word = ground arith in omega (arith, lo, hi);
        below_hi = λ i q. absurd (omega (arith, none_in));
        sorted = λ i j q q'. absurd (omega (arith, none_in));
        kind = inr (record {
          inner = ap (λ (y : Node V). y.is_leaf) at_root ∙ f.not_leaf;
          childs_count = omega (arith, ap (λ (y : Node V). y.childs_size) at_root, none_in);
          from_lo = λ i q. absurd (omega (arith, none_in));
          child = λ i q.
              let e : 0 ≡ i = omega (arith, none_in) in
              subst (IsChildAt dflt now gh root) e (root_child dflt n g t big o);
        });
        above = inl (refl, ap (λ (y : Node V). y.parent) at_root ∙ f.no_parent);
      }

  live_cases : (x : ℕ) → gh.live x ≡ true → (x ≡ root) ⊎ (g.live x ≡ true)
  live_cases x alive = elim (ℕ_discrete x root) [
    | yes e ↦ inl e
    | no ne ↦ inr (ground (arith, alive, ne))
  ]

  pub raised-IsTree : IsTree dflt now gh n root
  raised-IsTree = record {
    null = let no_null = o.tree.null in ground (arith, no_null);
    root_live = ground arith;
    root_lo = ground arith;
    root_hi = ground arith;
    root_top = root_node_top;
    deep = λ x alive. elim (live_cases x alive) [
      | inl e ↦ omega (arith, ap gh.level e)
      | inr old ↦
          omega
            (arith, level_of dflt n g t big o x old, level_root dflt n g t big o, o.tree.deep x old)
    ];
    node = λ x alive. elim (live_cases x alive) [
      | inl e ↦ subst (IsNodeAt dflt now gh n root) (sym e) root_node_at
      | inr old ↦ node_kept x old
    ];
  }
    where
      root_node_top : (now root).parent ≡ 0
      root_node_top =
          ap (λ (y : Node V). y.parent) at_root ∙ (IsFresh-root dflt n g t big o).no_parent

  -- The new root stores no value.
  pub Has-raised : (key : ℕ) (val : V) → Has dflt t.cache g key val → Has dflt now gh key val
  Has-raised key val has =
      let at = is has.leaf has.alive in
      record {
        leaf = has.leaf;
        alive = live_of dflt n g t big o has.leaf has.alive;
        is_leaf = ap (λ (node : Node V). node.is_leaf) at ∙ has.is_leaf;
        place = has.place;
        in_range = omega (arith, has.in_range, ap (λ (node : Node V). node.vals_size) at);
        val_is = ap (λ (node : Node V). val_at dflt node has.place) at ∙ has.val_is;
      }

  pub Has-unraised : (key : ℕ) (val : V) → Has dflt now gh key val → Has dflt t.cache g key val
  Has-unraised key val has = elim (live_cases has.leaf has.alive) [
    | inl e ↦ absurd (omega (arith, has.in_range, ap (λ x. (now x).vals_size) e, root_empty))
    | inr old ↦
        let at = is has.leaf old in
        record {
          leaf = has.leaf;
          alive = old;
          is_leaf = sym (ap (λ (node : Node V). node.is_leaf) at) ∙ has.is_leaf;
          place = has.place;
          in_range = omega (arith, has.in_range, ap (λ (node : Node V). node.vals_size) at);
          val_is = sym (ap (λ (node : Node V). val_at dflt node has.place) at) ∙ has.val_is;
        }
  ]

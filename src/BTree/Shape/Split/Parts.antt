-- ===== src/BTree/Shape/Split/Parts.antt =====
-- The two halves and their parent after `split_node` of include/btree.hpp as nodes of a tree.
use nkvdb.Prelude.{
  ℕ, ◌+◌, ◌≤◌, ◌<◌, ◌≡◌, refl, sym, ap, ◌∙◌, ◌⊎◌, inl, inr, true, arith, ℕ_discrete, length,
}
use nkvdb.BTree.Nodes.{Node}
use nkvdb.BTree.Shape.{Ghost, key_at, IsLeafAt, IsInnerAt, IsNodeAt}
use nkvdb.BTree.Shape.Split.Facts.{
  Splitting, mid, node_at, half-lt, lo-lt-mid, mid-lt-hi, inner_at, leaf_at,
}
use nkvdb.BTree.Shape.Split.Children.{g', new_level, new_lo, new_hi, node_hi, lo_old, level_old}
use nkvdb.BTree.Shape.Split.Halves.{child_first, child_second, key_kept}
use nkvdb.BTree.Shape.Split.Rest.{above, new_above, next_kept}

module _ {V : Type 0} (dflt : V) (n : ℕ) (before after : ℕ → Node V) (g : Ghost)
    (root w c p d h : ℕ) (s : Splitting dflt n before after g root w c p d h) where
  abbrev pub ghost : Ghost
  ghost = g' dflt n before after g root w c p d h s

  abbrev m : ℕ
  m = mid dflt n before after g root w c p d h s

  abbrev node_w : IsNodeAt dflt before g n root w
  node_w = node_at dflt n before after g root w c p d h s

  lo_w : ghost.lo w ≡ g.lo w
  lo_w = lo_old dflt n before after g root w c p d h s w s.alive

  half_size : h < (before w).vals_size
  half_size = half-lt dflt n before after g root w c p d h s

  mid_is : m ≡ key_at dflt (before w) h
  mid_is = refl

  pub new_live : ghost.live c ≡ true
  new_live = ground arith

  first_kind : IsLeafAt dflt after ghost w ⊎ IsInnerAt dflt after ghost w
  first_kind =
      let size = s.split.vals_size_is in
      let level = level_old dflt n before after g root w c p d h s w s.alive in
      elim s.split.kind [
        | inl l ↦
            let leaf = leaf_at dflt n before after g root w c p d h s l.leaf in
            inl (record {
              leaf = l.leaf';
              childless = l.childless;
              level_is = level ∙ leaf.level_is;
              from_lo = λ i q. omega (
                arith,
                leaf.from_lo i (omega (arith, half_size)),
                key_kept dflt n before after g root w c p d h s i,
                lo_w,
              );
              next_is = inr (
                ap ghost.live s.split.next_is ∙ new_live,
                ap ghost.lo s.split.next_is
                    ∙ new_lo dflt n before after g root w c p d h s
                    ∙ sym (node_hi dflt n before after g root w c p d h s),
                ap ghost.level s.split.next_is
                    ∙ new_level dflt n before after g root w c p d h s
                    ∙ leaf.level_is,
              );
            })
        | inr k ↦
            let inner = inner_at dflt n before after g root w c p d h s k.inner in
            inr (record {
              inner = k.inner';
              childs_count = omega (arith, k.childs_size, size, k.half);
              from_lo = λ i q. omega (
                arith,
                inner.from_lo i (omega (arith, half_size)),
                key_kept dflt n before after g root w c p d h s i,
                lo_w,
              );
              child = λ i q.
                  child_first dflt n before after g root w c p d h s k.inner i
                    (omega (arith, size, k.half));
            })
      ]

  pub first_node : IsNodeAt dflt after ghost n root w
  first_node =
      let size = s.split.vals_size_is in
      let key = key_kept dflt n before after g root w c p d h s in
      let hi = node_hi dflt n before after g root w c p d h s in
      record {
        id_is = s.split.id_is ∙ node_w.id_is;
        vals_long = ap length s.split.vals_is ∙ node_w.vals_long;
        childs_long = s.split.childs_long;
        some_key = omega (arith, lo_w, hi, lo-lt-mid dflt n before after g root w c p d h s);
        below_hi = λ i q.
            omega (arith, key i, hi, mid_is, node_w.sorted i h (omega (arith, size)) half_size);
        sorted = λ i j q r.
            omega (arith, key i, key j, node_w.sorted i j q (omega (arith, size, half_size)));
        kind = first_kind;
        above = above dflt n before after g root w c p d h s w s.alive;
      }

  new_key : (i : ℕ) → i < h → key_at dflt (after c) i ≡ key_at dflt (before w) (n + i)
  new_key i l = ap (λ (v : ℕ × V). v.0) (s.split.new_val i l)

  in_second : (i : ℕ) → i < h → n + i < (before w).vals_size
  in_second i l = elim s.split.kind [
    | inl k ↦ omega (arith, k.full, k.half)
    | inr k ↦ omega (arith, k.full, k.half)
  ]

  mid-le-second : (i : ℕ) → i < h → m ≤ key_at dflt (before w) (n + i)
  mid-le-second i l = elim (ℕ_discrete h (n + i)) [
    | yes e ↦ omega (arith, mid_is, ap (key_at dflt (before w)) e)
    | no ne ↦
        let lt : h < n + i = elim s.split.kind [
          | inl k ↦ omega (arith, k.half)
          | inr k ↦ omega (arith, k.half)
        ] in
        omega (arith, mid_is, node_w.sorted h (n + i) lt (in_second i l))
  ]

  second_kind : IsLeafAt dflt after ghost c ⊎ IsInnerAt dflt after ghost c
  second_kind =
      let size = s.split.new_vals_size in
      let level = new_level dflt n before after g root w c p d h s in
      let lo = new_lo dflt n before after g root w c p d h s in
      elim s.split.kind [
        | inl l ↦
            let leaf = leaf_at dflt n before after g root w c p d h s l.leaf in
            inl (record {
              leaf = l.new_leaf;
              childless = l.new_childless;
              level_is = level ∙ leaf.level_is;
              from_lo = λ i q.
                  let q' : i < h = omega (arith, size) in
                  omega (arith, lo, new_key i q', mid-le-second i q');
              next_is =
                  next_kept dflt n before after g root w c p d h s w c s.split.new_next
                    (new_hi dflt n before after g root w c p d h s) leaf.next_is;
            })
        | inr k ↦ inr (record {
          inner = k.new_inner;
          childs_count = omega (arith, k.new_childs_size, size, k.half);
          from_lo = λ i q.
              let q' : i < h = omega (arith, size) in
              let above_mid = node_w.sorted h (n + i) (omega (arith, k.half)) (in_second i q') in
              omega (arith, lo, new_key i q', mid_is, above_mid);
          child = λ i q.
              child_second dflt n before after g root w c p d h s k.inner i
                (omega (arith, size, k.half));
        })
      ]

  pub second_node : IsNodeAt dflt after ghost n root c
  second_node =
      let size = s.split.new_vals_size in
      let lo = new_lo dflt n before after g root w c p d h s in
      let hi = new_hi dflt n before after g root w c p d h s in
      record {
        id_is = s.split.new_id;
        vals_long = s.split.new_vals_long;
        childs_long = s.split.new_childs_long;
        some_key = omega (arith, lo, hi, mid-lt-hi dflt n before after g root w c p d h s);
        below_hi = λ i q.
            let q' : i < h = omega (arith, size) in
            omega (arith, new_key i q', hi, node_w.below_hi (n + i) (in_second i q'));
        sorted = λ i j q r.
            let r' : j < h = omega (arith, size) in
            let q' : i < h = omega arith in
            omega (
              arith,
              new_key i q',
              new_key j r',
              node_w.sorted (n + i) (n + j) (omega arith) (in_second j r'),
            );
        kind = second_kind;
        above = inr (new_above dflt n before after g root w c p d h s);
      }

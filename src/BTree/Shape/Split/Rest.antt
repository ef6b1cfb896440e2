-- ===== src/BTree/Shape/Split/Rest.antt =====
-- The parents of the nodes after `split_node` of include/btree.hpp, and the nodes apart from the
-- split one and its parent.
use nkvdb.Prelude.{
  ℕ, suc, ◌+◌, ◌-◌, ◌≤◌, ◌<◌, ◌≡◌, ◌≢◌, sym, ap, ◌∙◌, ◌⊎◌, inl, inr, true, arith, dec_lt,
  ℕ_discrete, length,
}
use nkvdb.BTree.Nodes.{Node}
use nkvdb.BTree.Shape.{
  Ghost, child_at, key_at, IsChildAt, IsLeafAt, IsInnerAt, HasParent, HasNext, IsNodeAt,
}
use nkvdb.BTree.Shape.Unique.{inner_of}
use nkvdb.BTree.Shape.Split.Facts.{Splitting, inner_split}
use nkvdb.BTree.Shape.Split.Children.{
  g', live_old, lo_old, level_old, hi_old, parent_kept, same, child_same, child_kept,
}
use nkvdb.BTree.Shape.Split.Halves.{child_first, child_second}
use nkvdb.BTree.Shape.Split.Up.{up_children, up_child_first, up_child_mid, up_child_later}

module _ {V : Type 0} (dflt : V) (n : ℕ) (before after : ℕ → Node V) (g : Ghost)
    (root w c p d h : ℕ) (s : Splitting dflt n before after g root w c p d h) where
  abbrev ghost : Ghost
  ghost = g' dflt n before after g root w c p d h s

  from_child :
      (y j x : ℕ)
      → (g' dflt n before after g root w c p d h s).live y ≡ true
      → IsChildAt dflt after (g' dflt n before after g root w c p d h s) y j
      → j ≤ (after y).vals_size
      → child_at (after y) j ≡ x
      → HasParent dflt after (g' dflt n before after g root w c p d h s) x
  from_child y j x alive child l e =
      let is : (after x).parent ≡ y = sym (ap (λ z. (after z).parent) e) ∙ child.parent_is in
      record {
        alive = ap ghost.live is ∙ alive;
        level_is = ap ghost.level is ∙ sym child.level_is ∙ ap (λ z. suc (ghost.level z)) e;
        place = j;
        in_range = rw is l;
        is_child = ap (λ z. child_at (after z) j) is ∙ e;
      }

  pub new_above : HasParent dflt after (g' dflt n before after g root w c p d h s) c
  new_above =
      from_child p (d + 1) c (live_old dflt n before after g root w c p d h s p s.up_alive)
        (up_children dflt n before after g root w c p d h s (d + 1) (omega (arith, s.in_range)))
        (omega (arith, s.in_range, s.split.up_vals_size))
        (up_child_mid dflt n before after g root w c p d h s)

  -- A child of the split node goes on in one of the halves.
  of_node :
      (x i : ℕ)
      → (before x).parent ≡ w
      → g.level w ≡ suc (g.level x)
      → i ≤ (before w).vals_size
      → child_at (before w) i ≡ x
      → HasParent dflt after (g' dflt n before after g root w c p d h s) x
  of_node x i e level l is =
      let inner = (inner_of dflt n before g root s.tree w s.alive (omega (arith, level))).inner in
      let sp = inner_split dflt n before after g root w c p d h s inner in
      elim (dec_lt i n) [
        | yes first ↦
            from_child w i x (live_old dflt n before after g root w c p d h s w s.alive)
              (child_first dflt n before after g root w c p d h s inner i first)
              (omega (arith, s.split.vals_size_is, sp.half)) (sp.child i first ∙ is)
        | no second ↦
            let e : n + (i - n) ≡ i = omega arith in
            let lt : i - n < n = omega (arith, sp.full) in
            from_child c (i - n) x (ground arith)
              (child_second dflt n before after g root w c p d h s inner (i - n) lt)
              (omega (arith, s.split.new_vals_size, sp.half))
              (sp.new_child (i - n) lt ∙ ap (child_at (before w)) e ∙ is)
      ]

  of_up :
      (x i : ℕ)
      → i ≤ (before p).vals_size
      → child_at (before p) i ≡ x
      → HasParent dflt after (g' dflt n before after g root w c p d h s) x
  of_up x i l is =
      let live = live_old dflt n before after g root w c p d h s p s.up_alive in
      let children = up_children dflt n before after g root w c p d h s in
      elim (dec_lt d i) [
        | no first ↦
            from_child p i x live (children i (omega arith)) (omega (arith, s.split.up_vals_size))
              (up_child_first dflt n before after g root w c p d h s i (omega arith) ∙ is)
        | yes later ↦
            from_child p (i + 1) x live (children (i + 1) (omega arith))
              (omega (arith, s.split.up_vals_size))
              (up_child_later dflt n before after g root w c p d h s i later l ∙ is)
      ]

  has_above :
      (x : ℕ)
      → g.live x ≡ true
      → HasParent dflt before g x
      → HasParent dflt after (g' dflt n before after g root w c p d h s) x
  has_above x alive up = elim (ℕ_discrete (before x).parent w) [
    | yes e ↦
        of_node x up.place e (rw (← e) up.level_is) (rw (← e) up.in_range) (rw (← e) up.is_child)
    | no y_w ↦ elim (ℕ_discrete (before x).parent p) [
      | yes e ↦ of_up x up.place (rw (← e) up.in_range) (rw (← e) up.is_child)
      | no y_p ↦
          let y = (before x).parent in
          let inner =
            inner_of dflt n before g root s.tree y up.alive (omega (arith, up.level_is)) in
          from_child y up.place x (live_old dflt n before after g root w c p d h s y up.alive)
            (child_kept dflt n before after g root w c p d h s y up.alive y_w y_p up.place
              (inner.child up.place up.in_range))
            (omega (
              arith,
              up.in_range,
              ap (λ (node : Node V). node.vals_size)
                  (same dflt n before after g root w c p d h s y up.alive y_w y_p),
            ))
            (child_same dflt n before after g root w c p d h s y up.alive y_w y_p up.place
              ∙ up.is_child)
    ]
  ]

  pub above :
      (x : ℕ)
      → g.live x ≡ true
      → ((x ≡ root) × ((after x).parent ≡ 0))
        ⊎ HasParent dflt after (g' dflt n before after g root w c p d h s) x
  above x alive = elim (s.tree.node x alive).above [
    | inl r ↦
        let w_0 : 0 ≢ w = λ e. absurd (ground (arith, s.alive, s.tree.null, e)) in
        inl (r.0, parent_kept dflt n before after g root w c p d h s x alive (rw r.1 w_0) ∙ r.1)
    | inr up ↦ inr (has_above x alive up)
  ]

  -- Where a leaf led, one that ends at the same key leads now.
  pub next_kept :
      (x y : ℕ)
      → (after y).next ≡ (before x).next
      → (g' dflt n before after g root w c p d h s).hi y ≡ g.hi x
      → HasNext dflt before g x
      → HasNext dflt after (g' dflt n before after g root w c p d h s) y
  next_kept x y e hi (inl end) = inl (e ∙ end.0, hi ∙ end.1)
  next_kept x y e hi (inr to) =
      let z = (before x).next in
      inr (
        ap ghost.live e ∙ live_old dflt n before after g root w c p d h s z to.0,
        ap ghost.lo e ∙ lo_old dflt n before after g root w c p d h s z to.0 ∙ to.1 ∙ sym hi,
        ap ghost.level e ∙ level_old dflt n before after g root w c p d h s z to.0 ∙ to.2,
      )

  module _ (x : ℕ) (alive : g.live x ≡ true) (x_w : x ≢ w) (x_p : x ≢ p) where
    is : after x ≡ record (before x) { parent = (after x).parent }
    is = same dflt n before after g root w c p d h s x alive x_w x_p

    key_same : (i : ℕ) → key_at dflt (after x) i ≡ key_at dflt (before x) i
    key_same i = ap (λ (node : Node V). key_at dflt node i) is

    size_same : (after x).vals_size ≡ (before x).vals_size
    size_same = ap (λ (node : Node V). node.vals_size) is

    leaf_kept :
        IsLeafAt dflt before g x → IsLeafAt dflt after (g' dflt n before after g root w c p d h s) x
    leaf_kept l = record {
      leaf = ap (λ (node : Node V). node.is_leaf) is ∙ l.leaf;
      childless = ap (λ (node : Node V). node.childs_size) is ∙ l.childless;
      level_is = level_old dflt n before after g root w c p d h s x alive ∙ l.level_is;
      from_lo = λ i q. omega (
        arith,
        l.from_lo i (omega (arith, size_same)),
        key_same i,
        lo_old dflt n before after g root w c p d h s x alive,
      );
      next_is =
          next_kept x x (ap (λ (node : Node V). node.next) is)
            (hi_old dflt n before after g root w c p d h s x alive x_w) l.next_is;
    }

    inner_kept :
        IsInnerAt dflt before g x
        → IsInnerAt dflt after (g' dflt n before after g root w c p d h s) x
    inner_kept l = record {
      inner = ap (λ (node : Node V). node.is_leaf) is ∙ l.inner;
      childs_count =
          omega (arith, ap (λ (node : Node V). node.childs_size) is, l.childs_count, size_same);
      from_lo = λ i q. omega (
        arith,
        l.from_lo i (omega (arith, size_same)),
        key_same i,
        lo_old dflt n before after g root w c p d h s x alive,
      );
      child = λ i q.
          child_kept dflt n before after g root w c p d h s x alive x_w x_p i
            (l.child i (omega (arith, size_same)));
    }

    pub node_kept : IsNodeAt dflt after (g' dflt n before after g root w c p d h s) n root x
    node_kept =
        let node = s.tree.node x alive in
        let lo = lo_old dflt n before after g root w c p d h s x alive in
        let hi = hi_old dflt n before after g root w c p d h s x alive x_w in
        record {
          id_is = ap (λ (node : Node V). node.id) is ∙ node.id_is;
          vals_long = ap (λ (node : Node V). length node.vals) is ∙ node.vals_long;
          childs_long = ap (λ (node : Node V). length node.childs) is ∙ node.childs_long;
          some_key = omega (arith, node.some_key, lo, hi);
          below_hi =
              λ i q. omega (arith, node.below_hi i (omega (arith, size_same)), key_same i, hi);
          sorted = λ i j q r.
              omega (arith, node.sorted i j q (omega (arith, size_same)), key_same i, key_same j);
          kind = elim node.kind [ inl l ↦ inl (leaf_kept l) | inr i ↦ inr (inner_kept i) ];
          above = above x alive;
        }

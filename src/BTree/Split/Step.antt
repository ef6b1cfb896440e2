-- ===== src/BTree/Split/Step.antt =====
-- One round of `split_node` of include/btree.hpp on a node that has a parent.
use nkvdb.Prelude.{
  ℕ, ◌+◌, ◌*◌, ◌/◌, ◌≤◌, ◌<◌, ◌≡◌, ◌≢◌, inl, inr, refl, sym, ap, ◌∙◌, false, arith, ◌==◌,
}
use nkvdb.Prelude.Result.{ok}
use nkvdb.BTree.{BTree, put, move_half, insert_to_parent}
use nkvdb.BTree.Nodes.{Node, val_at, insert_value, insert_child}
use nkvdb.BTree.Shape.{Ghost, child_at, key_at, IsInnerAt, HasParent}
use nkvdb.BTree.Shape.Split.{IsSplit}
use nkvdb.BTree.Shape.Split.Facts.{Splitting}
use nkvdb.BTree.Shape.Unique.{keys_before, keys_after}
use nkvdb.BTree.Move.{put_at, put_other}
use nkvdb.BTree.Move.Up.{insert_value_is, insert_child_is}
use nkvdb.BTree.Move.Join.{IsJoined, up_node, joined-IsSplit}
use nkvdb.BTree.Split.{IsOver}
use nkvdb.BTree.Split.Start.{
  c, made, ne_new, made_old, made_w, half, mid-lt-hi, lo-lt-mid, half_moved,
}

insert_to_parent_up :
    {V : Type 0} (dflt : V) (n w c p : ℕ) (mid : ℕ × V) (P : Node V) (t : BTree V)
    → (t.cache w).parent ≡ p
    → p ≢ 0
    → c ≢ p
    → insert_child dflt mid.0 (t.cache c).id (insert_value dflt mid.0 mid.1 (t.cache p)) ≡ ok P
    → insert_to_parent dflt n w c mid t
      ≡ ok (p, put c (record (t.cache c) { parent = p }) (put p P t))
unfolding insert_to_parent
insert_to_parent_up dflt n w c p mid P t e p_0 c_p ins =
    let test : (p == 0) ≡ false = ground (arith, p_0) in
    rw (e, test, ins)
      (ap (λ y. ok (p, put c (record y { parent = p }) (put p P t))) (put_other dflt n c p P t c_p))

module _ {V : Type 0} (dflt : V) (n : ℕ) (g : Ghost) (t : BTree V) (w : ℕ) (big : 2 ≤ n)
    (o : IsOver dflt n g t w) (up : HasParent dflt t.cache g w) where
  abbrev c' : ℕ
  c' = c dflt n g t w big o

  abbrev m : BTree V
  m = made dflt n g t w big o

  abbrev p : ℕ
  p = (t.cache w).parent

  abbrev h : ℕ
  h = half dflt n g t w big o

  abbrev moved : BTree V
  moved = move_half dflt n w c' m

  abbrev P : Node V
  P = up_node dflt n t.cache m.cache moved.cache moved.cache w c' p up.place h

  abbrev new : Node V
  new = record (moved.cache c') { parent = p }

  -- The nodes after the round.
  abbrev pub after : BTree V
  after = put c' new (put p P moved)

  p_w : p ≢ w
  p_w e = absurd (omega (arith, up.level_is, ap g.level e))

  w_c : w ≢ c'
  w_c = ne_new dflt n g t w big o w o.alive

  p_c : p ≢ c'
  p_c = ne_new dflt n g t w big o p up.alive

  inner_up : IsInnerAt dflt t.cache g p
  inner_up = elim (o.tree.node p up.alive).kind [
    | inl l ↦ absurd (omega (arith, l.level_is, up.level_is))
    | inr i ↦ i
  ]

  pub up_sized : (t.cache p).vals_size + 1 < n * 2
  up_sized = elim (o.sized p p_w up.alive) [
    | inl l ↦ absurd (ground (arith, l.0, inner_up.inner))
    | inr i ↦ i.2
  ]

  -- The parent is no child of the node, so that the first half leaves it as it was.
  moved_p : moved.cache p ≡ t.cache p
  moved_p =
      let moves = half_moved dflt n g t w big o in
      let same = made_old dflt n g t w big o p p_c in
      let parent = moves.rest_parent p p_w p_c (λ inner i l e.
        let at_w = made_w dflt n g t w big o in
        let x = child_at (t.cache w) (n + i) in
        let is : x ≡ p = sym (ap (λ (y : Node V). child_at y (n + i)) at_w) ∙ e in
        elim (o.tree.node w o.alive).kind [
          | inl leaf ↦
              absurd (ground (arith, leaf.leaf, inner, ap (λ (y : Node V). y.is_leaf) at_w))
          | inr k ↦
              let child =
                k.child (n + i)
                  (elim o.full [ inl f ↦ omega (arith, f.1) | inr f ↦ omega (arith, f.1) ]) in
              absurd (omega (arith, child.level_is, up.level_is, ap g.level is))
        ]) in
      moves.rest_is p p_w p_c ∙ ap (λ z. record (m.cache p) { parent = z }) parent ∙ same

  joined : IsJoined dflt n t.cache m.cache moved.cache after.cache w c' p up.place h
  joined =
      let at_w = made_w dflt n g t w big o in
      let moves = half_moved dflt n g t w big o in
      let size = up_sized in
      let node_p = o.tree.node p up.alive in
      let is = up.is_child in
      record {
        half = moves;
        belongs = record {
          in_range = up.in_range;
          before = λ i l. omega (
            arith,
            keys_before dflt n t.cache g t.root p i up.place node_p inner_up up.in_range l,
            ap g.lo is,
            lo-lt-mid dflt n g t w big o,
          );
          after = λ i l l'. omega (
            arith,
            keys_after dflt n t.cache g t.root p i up.place node_p inner_up l l',
            ap g.hi is,
            mid-lt-hi dflt n g t w big o,
          );
          room = omega (arith, size);
          vals_long = node_p.vals_long;
        };
        childs_count = inner_up.childs_count;
        childs_room = omega (arith, size, inner_up.childs_count);
        childs_long = node_p.childs_long;
        start_w =
            at_w
            ∙ ap (λ z. record (t.cache w) { parent = z })
                (sym (ap (λ (y : Node V). y.parent) at_w));
        start_x = λ x x_w x_c x_p. made_old dflt n g t w big o x x_c;
        after_w =
            put_other dflt n w c' new (put p P moved) w_c
            ∙ put_other dflt n w p P moved (λ e. p_w (sym e))
            ∙ ap (λ z. record (moved.cache w) { parent = z })
                (moves.parent_is ∙ ap (λ (y : Node V). y.parent) at_w);
        after_c = put_at dflt n c' c' new (put p P moved) refl;
        after_p = put_other dflt n p c' new (put p P moved) p_c ∙ put_at dflt n p p P moved refl;
        after_x = λ x x_w x_c x_p.
            put_other dflt n x c' new (put p P moved) x_c ∙ put_other dflt n x p P moved x_p;
      }

  insert_is :
      insert_child dflt (key_at dflt (t.cache w) h) (moved.cache c').id (
        insert_value dflt (key_at dflt (t.cache w) h) (val_at dflt (t.cache w) h).1 (moved.cache p))
      ≡ ok P
  insert_is =
      let key = key_at dflt (t.cache w) h in
      let val = (val_at dflt (t.cache w) h).1 in
      rw
        (
          moved_p,
          (half_moved dflt n g t w big o).new_id,
          insert_value_is dflt n key val (t.cache p) up.place joined.belongs,
        )
        (insert_child_is dflt n key val (t.cache p) up.place joined.belongs c'
          inner_up.childs_count)

  -- The value and the new node go up.
  pub insert_to_parent-after :
      insert_to_parent dflt n w c' (val_at dflt (m.cache w) ((m.cache w).vals_size / 2)) moved
      ≡ ok (p, after)
  insert_to_parent-after =
      let at_w = made_w dflt n g t w big o in
      let parent_is =
        (half_moved dflt n g t w big o).parent_is ∙ ap (λ (y : Node V). y.parent) at_w in
      let p_0 : p ≢ 0 = λ e. absurd (ground (arith, up.alive, o.tree.null, ap g.live e)) in
      ap (λ (y : Node V). insert_to_parent dflt n w c' (val_at dflt y (y.vals_size / 2)) moved) at_w
      ∙ insert_to_parent_up dflt n w c' p (val_at dflt (t.cache w) h) P moved parent_is p_0
          (λ e. p_c (sym e)) insert_is

  pub round-IsSplit : IsSplit dflt n t.cache after.cache w c' p up.place h
  round-IsSplit =
      joined-IsSplit dflt n t.cache m.cache moved.cache after.cache w c' p up.place h joined

  pub round-Splitting : Splitting dflt n t.cache after.cache g t.root w c' p up.place h
  round-Splitting = record {
    tree = o.tree;
    split = round-IsSplit;
    big = big;
    alive = o.alive;
    new = o.free c' (omega arith);
    new_pos = o.pos;
    up = refl;
    up_alive = up.alive;
    up_level = up.level_is;
    in_range = up.in_range;
    is_child = up.is_child;
  }

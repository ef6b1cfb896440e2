-- ===== src/BTree/Move/Join.antt =====
-- The two halves of `split_node` of include/btree.hpp together.
use nkvdb.Prelude.{
  ℕ, ◌+◌, ◌-◌, ◌*◌, ◌≤◌, ◌<◌, ◌≡◌, ◌≢◌, ◌⊎◌, inl, inr, sym, ap, ◌∙◌, arith, ltb, ◌==◌,
  if◌then◌else◌, length,
}
use nkvdb.BTree.Array.{insert_to_array, length-insert_to_array}
use nkvdb.BTree.Nodes.{Node, val_at}
use nkvdb.BTree.Copies.{get_or-insert_to_array}
use nkvdb.BTree.Shape.{child_at}
use nkvdb.BTree.Shape.Split.{IsSplit, IsLeafSplit, IsInnerSplit}
use nkvdb.BTree.Move.Halves.{IsMoved}
use nkvdb.BTree.Move.Up.{BelongsAt, with_value_at}

module _ {V : Type 0} (dflt : V) (n : ℕ) (before start moved after : ℕ → Node V)
    (w c p d h : ℕ) where
  -- The parent with the middle value and the new child.
  abbrev pub up_node : Node V
  up_node =
      let mid = val_at dflt (before w) h in
      record (before p) {
        vals = insert_to_array ((before p).vals_size + 1) d mid (before p).vals;
        vals_size = (before p).vals_size + 1;
        childs = insert_to_array ((before p).childs_size + 1) (d + 1) c (before p).childs;
        childs_size = (before p).childs_size + 1;
      }

  -- `start` is as it was `before`, but for what the new node and the parent have been given.
  pub record IsJoined : Type 0 where
    pub half : IsMoved dflt n start moved w c h
    pub belongs :
        BelongsAt dflt n (val_at dflt (before w) h).0 (val_at dflt (before w) h).1 (before p) d
    pub childs_count : (before p).childs_size ≡ (before p).vals_size + 1
    pub childs_room : (before p).childs_size < n * 2
    pub childs_long : length (before p).childs ≡ n * 2
    pub start_w : start w ≡ record (before w) { parent = (start w).parent }
    pub start_x : (x : ℕ) → x ≢ w → x ≢ c → x ≢ p → start x ≡ before x
    pub after_w : after w ≡ record (moved w) { parent = (before w).parent }
    pub after_c : after c ≡ record (moved c) { parent = p }
    pub after_p : after p ≡ up_node
    pub after_x : (x : ℕ) → x ≢ w → x ≢ c → x ≢ p → after x ≡ moved x

  module _ (j : IsJoined) where
    kind : IsLeafSplit dflt n before after w c p d h ⊎ IsInnerSplit dflt n before after w c p d h
    kind = elim j.half.kind [
      | inl l ↦ inl (record {
        leaf = sym (ap (λ (y : Node V). y.is_leaf) j.start_w) ∙ l.leaf;
        leaf' = ap (λ (y : Node V). y.is_leaf) j.after_w ∙ l.leaf';
        new_leaf = ap (λ (y : Node V). y.is_leaf) j.after_c ∙ l.new_leaf;
        full = sym (ap (λ (y : Node V). y.vals_size) j.start_w) ∙ l.full;
        half = l.half;
        childless = ap (λ (y : Node V). y.childs_size) j.after_w ∙ l.childless;
        new_childless = ap (λ (y : Node V). y.childs_size) j.after_c ∙ l.new_childless;
      })
      | inr k ↦ inr (record {
        inner = sym (ap (λ (y : Node V). y.is_leaf) j.start_w) ∙ k.inner;
        inner' = ap (λ (y : Node V). y.is_leaf) j.after_w ∙ k.inner';
        new_inner = ap (λ (y : Node V). y.is_leaf) j.after_c ∙ k.new_inner;
        full = sym (ap (λ (y : Node V). y.vals_size + 1) j.start_w) ∙ k.full;
        half = k.half;
        childs_size = ap (λ (y : Node V). y.childs_size) j.after_w ∙ k.childs_size;
        new_childs_size = ap (λ (y : Node V). y.childs_size) j.after_c ∙ k.new_childs_size;
        child = λ i l.
            ap (λ (y : Node V). child_at y i) j.after_w
            ∙ k.child i l
            ∙ ap (λ (y : Node V). child_at y i) j.start_w;
        new_child = λ i l.
            ap (λ (y : Node V). child_at y i) j.after_c
            ∙ k.new_child i l
            ∙ ap (λ (y : Node V). child_at y (n + i)) j.start_w;
        moved = λ i x l e x_w x_c x_p.
            ap (λ (y : Node V). y.parent) (j.after_x x x_w x_c x_p)
            ∙ k.moved i x l (ap (λ (y : Node V). child_at y (n + i)) j.start_w ∙ e) x_w x_c x_w;
      })
    ]

    up_val :
        (i : ℕ)
        → i ≤ (before p).vals_size
        → val_at dflt (after p) i ≡ (
            if i == d
            then val_at dflt (before w) h
            else if ltb d i
            then val_at dflt (before p) (i - 1)
            else val_at dflt (before p) i)
    up_val i l =
        ap (λ (y : Node V). val_at dflt y i) j.after_p
        ∙ with_value_at dflt n (val_at dflt (before w) h).0 (val_at dflt (before w) h).1 (before p)
            d j.belongs i l

    up_child :
        (i : ℕ)
        → i ≤ (before p).childs_size
        → child_at (after p) i ≡ (
            if i == d + 1
            then c
            else if ltb (d + 1) i
            then child_at (before p) (i - 1)
            else child_at (before p) i)
    up_child i l =
        let v =
          get_or-insert_to_array ((before p).childs_size + 1) (d + 1) i c 0 (before p).childs
            (omega (arith, j.belongs.in_range, j.childs_count))
            (omega (arith, j.childs_room, j.childs_long)) in
        ap (λ (y : Node V). child_at y i) j.after_p ∙ ground (arith, v)

    pub joined-IsSplit : IsSplit dflt n before after w c p d h
    joined-IsSplit = record {
      kind = kind;
      id_is =
          ap (λ (y : Node V). y.id) j.after_w ∙ j.half.id_is ∙ ap (λ (y : Node V). y.id) j.start_w;
      parent_is = ap (λ (y : Node V). y.parent) j.after_w;
      next_is = ap (λ (y : Node V). y.next) j.after_w ∙ j.half.next_is;
      vals_size_is = ap (λ (y : Node V). y.vals_size) j.after_w ∙ j.half.vals_size_is;
      vals_is =
          ap (λ (y : Node V). y.vals) j.after_w
          ∙ j.half.vals_is
          ∙ ap (λ (y : Node V). y.vals) j.start_w;
      childs_long = ap (λ (y : Node V). length y.childs) j.after_w ∙ j.half.childs_long;
      new_id = ap (λ (y : Node V). y.id) j.after_c ∙ j.half.new_id;
      new_parent = ap (λ (y : Node V). y.parent) j.after_c;
      new_next =
          ap (λ (y : Node V). y.next) j.after_c
          ∙ j.half.new_next
          ∙ ap (λ (y : Node V). y.next) j.start_w;
      new_vals_size = ap (λ (y : Node V). y.vals_size) j.after_c ∙ j.half.new_vals_size;
      new_val = λ i l.
          ap (λ (y : Node V). val_at dflt y i) j.after_c
          ∙ j.half.new_val i l
          ∙ ap (λ (y : Node V). val_at dflt y (n + i)) j.start_w;
      new_vals_long = ap (λ (y : Node V). length y.vals) j.after_c ∙ j.half.new_vals_long;
      new_childs_long = ap (λ (y : Node V). length y.childs) j.after_c ∙ j.half.new_childs_long;
      up_is_leaf = ap (λ (y : Node V). y.is_leaf) j.after_p;
      up_id = ap (λ (y : Node V). y.id) j.after_p;
      up_parent = ap (λ (y : Node V). y.parent) j.after_p;
      up_vals_size = ap (λ (y : Node V). y.vals_size) j.after_p;
      up_childs_size = ap (λ (y : Node V). y.childs_size) j.after_p;
      up_val = up_val;
      up_child = up_child;
      up_vals_long =
          ap (λ (y : Node V). length y.vals) j.after_p
          ∙ length-insert_to_array ((before p).vals_size + 1) d (val_at dflt (before w) h)
              (before p).vals
          ∙ j.belongs.vals_long;
      up_childs_long =
          ap (λ (y : Node V). length y.childs) j.after_p
          ∙ length-insert_to_array ((before p).childs_size + 1) (d + 1) c (before p).childs
          ∙ j.childs_long;
      rest_is = λ x x_w x_c x_p.
          j.after_x x x_w x_c x_p
          ∙ j.half.rest_is x x_w x_c
          ∙ ap (λ (y : Node V). record y { parent = (moved x).parent }) (j.start_x x x_w x_c x_p)
          ∙ ap (λ z. record (before x) { parent = z })
              (sym (ap (λ (y : Node V). y.parent) (j.after_x x x_w x_c x_p)));
      rest_parent = λ x x_w x_c x_p unmoved.
          ap (λ (y : Node V). y.parent) (j.after_x x x_w x_c x_p)
          ∙ j.half.rest_parent x x_w x_c (λ e i l q.
            unmoved (sym (ap (λ (y : Node V). y.is_leaf) j.start_w) ∙ e) i l
              (sym (ap (λ (y : Node V). child_at y (n + i)) j.start_w) ∙ q))
          ∙ ap (λ (y : Node V). y.parent) (j.start_x x x_w x_c x_p);
    }

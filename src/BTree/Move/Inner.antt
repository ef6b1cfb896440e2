-- ===== src/BTree/Move/Inner.antt =====
-- The two halves of an inner node after the first half of `split_node` of include/btree.hpp.
use nkvdb.Prelude.{
  ℕ, ◌+◌, ◌-◌, ◌*◌, ◌/◌, ◌≤◌, ◌<◌, ◌≡◌, ◌≢◌, inr, refl, sym, ap, ◌∙◌, false, arith, ◌==◌, length,
}
use nkvdb.BTree.{BTree, put, adopt, move_half}
use nkvdb.BTree.Nodes.{Node, val_at}
use nkvdb.BTree.Copies.{length-copy_elems, get_or-copy_elems, length-zero_elems, get_or-zero_elems}
use nkvdb.BTree.Shape.{child_at}
use nkvdb.BTree.Shape.Split.{IsInnerSplit}
use nkvdb.BTree.Move.{put_at, put_other, adopt_kept, adopt_moved, adopt_is}
use nkvdb.BTree.Move.Halves.{
  IsFresh, IsMoved, node, new, begin, first_vals, second_vals, kept, first, second, move_inner,
  new_val_at, begin_inner, second_size, second_long,
}

module _ {V : Type 0} (dflt : V) (n : ℕ) (w c : ℕ) (t : BTree V) (w_c : w ≢ c) (big : 2 ≤ n)
    (fresh : IsFresh n (t.cache c)) (id : (t.cache c).id ≡ c)
    (long : length (t.cache w).vals ≡ n * 2) (childs_long : length (t.cache w).childs ≡ n * 2)
    (inner : (t.cache w).is_leaf ≡ false) (full : (t.cache w).vals_size + 1 ≡ n * 2)
    (childs_full : (t.cache w).childs_size ≡ n * 2)
    (apart : (i : ℕ)
      → i < n
      → (child_at (t.cache w) (n + i) ≢ w) × (child_at (t.cache w) (n + i) ≢ c)) where
  abbrev halved : BTree V
  halved = put c (second dflt n w c t) (put w (first dflt n w c t) t)

  abbrev moved : BTree V
  moved = move_half dflt n w c t

  kept_is : kept dflt n w c t ≡ n
  unfolding kept node
  kept_is = omega (arith, childs_full)

  count_is : (t.cache w).childs_size - kept dflt n w c t ≡ n
  count_is = omega (arith, childs_full, kept_is)

  moved_is : moved ≡ adopt dflt n n n c (t.cache w).childs halved
  moved_is =
      let some_child : ((t.cache w).childs_size == 0) ≡ false = ground (arith, childs_full, big) in
      move_inner dflt n w c t some_child ∙ rw (count_is, kept_is, id) refl

  at_other : (x : ℕ) → moved.cache x ≡ (adopt dflt n n n c (t.cache w).childs halved).cache x
  at_other x = ap (λ (z : BTree V). z.cache x) moved_is

  at_w : moved.cache w ≡ first dflt n w c t
  at_w =
      at_other w
      ∙ adopt_kept dflt n n n c w (t.cache w).childs halved (λ j l. (apart j l).0)
      ∙ put_other dflt n w c (second dflt n w c t) (put w (first dflt n w c t) t) w_c
      ∙ put_at dflt n w w (first dflt n w c t) t refl

  at_c : moved.cache c ≡ second dflt n w c t
  at_c =
      at_other c
      ∙ adopt_kept dflt n n n c c (t.cache w).childs halved (λ j l. (apart j l).1)
      ∙ put_at dflt n c c (second dflt n w c t) (put w (first dflt n w c t) t) refl

  halved_other : (x : ℕ) → x ≢ w → x ≢ c → halved.cache x ≡ t.cache x
  halved_other x x_w x_c =
      put_other dflt n x c (second dflt n w c t) (put w (first dflt n w c t) t) x_c
      ∙ put_other dflt n x w (first dflt n w c t) t x_w

  rest :
      (x : ℕ)
      → x ≢ w
      → x ≢ c
      → moved.cache x ≡ record (t.cache x) { parent = (moved.cache x).parent }
  rest x x_w x_c =
      let is = adopt_is dflt n n n c x (t.cache w).childs halved in
      at_other x
      ∙ is
      ∙ ap
          (λ (node : Node V). record node {
            parent = ((adopt dflt n n n c (t.cache w).childs halved).cache x).parent;
          })
          (halved_other x x_w x_c)
      ∙ ap (λ z. record (t.cache x) { parent = z })
          (sym (ap (λ (y : Node V). y.parent) (at_other x)))

  second_child : (i : ℕ) → i < n → child_at (second dflt n w c t) i ≡ child_at (t.cache w) (n + i)
  unfolding second node new
  second_child i l =
      let count = (t.cache w).childs_size - kept dflt n w c t in
      let v =
        get_or-copy_elems dflt n 0 count (kept dflt n w c t) 0 i (t.cache w).childs
          (t.cache c).childs (omega (arith, fresh.childs_long, count_is)) in
      let e : kept dflt n w c t + (i - 0) ≡ n + i = omega (arith, kept_is) in
      let cnt : i < 0 + count = omega (arith, count_is) in ground (arith, rw e at v, cnt)

  first_child : (i : ℕ) → i < n → child_at (first dflt n w c t) i ≡ child_at (t.cache w) i
  unfolding first node
  first_child i l =
      get_or-zero_elems dflt n ((t.cache w).childs_size - kept dflt n w c t) (kept dflt n w c t) i
        (t.cache w).childs (omega (arith, count_is, kept_is, childs_long)) (omega (arith, kept_is))

  first_long : length (first dflt n w c t).childs ≡ n * 2
  unfolding first node
  first_long =
      length-zero_elems dflt n ((t.cache w).childs_size - kept dflt n w c t) (kept dflt n w c t)
        (t.cache w).childs
      ∙ childs_long

  second_childs_long : length (second dflt n w c t).childs ≡ n * 2
  unfolding second node new
  second_childs_long =
      length-copy_elems dflt n 0 ((t.cache w).childs_size - kept dflt n w c t) (kept dflt n w c t) 0
        (t.cache w).childs (t.cache c).childs
      ∙ fresh.childs_long

  halves :
      (h : ℕ) → h + 1 ≡ n → IsInnerSplit dflt n t.cache (move_half dflt n w c t).cache w c w 0 h
  unfolding first second first_vals second_vals node new
  halves h half = record {
    inner = inner;
    inner' = ap (λ (y : Node V). y.is_leaf) at_w ∙ inner;
    new_inner = ap (λ (y : Node V). y.is_leaf) at_c ∙ inner;
    full = full;
    half = half;
    childs_size = ap (λ (y : Node V). y.childs_size) at_w ∙ kept_is;
    new_childs_size = ap (λ (y : Node V). y.childs_size) at_c ∙ kept_is;
    child = λ i l. ap (λ (y : Node V). child_at y i) at_w ∙ first_child i l;
    new_child = λ i l. ap (λ (y : Node V). child_at y i) at_c ∙ second_child i l;
    moved = λ i x l e x_w x_c x_p.
        ap (λ (y : Node V). y.parent)
          (at_other x ∙ adopt_moved dflt n n n c x i (t.cache w).childs halved l e);
  }

  pub inner_moved :
      (h : ℕ) → h + 1 ≡ n → IsMoved dflt n t.cache (move_half dflt n w c t).cache w c h
  unfolding first second first_vals second_vals node new
  inner_moved h half =
      let half_is : (t.cache w).vals_size / 2 ≡ h = omega (arith, full) in
      let b : begin dflt n w c t ≡ n =
        begin_inner dflt n w c t w_c big fresh id long childs_long inner
        ∙ omega (arith, half_is, half) in
      let count : (t.cache w).vals_size - n ≡ h = omega (arith, full) in
      record {
        kind = inr (halves h half);
        id_is = ap (λ (y : Node V). y.id) at_w;
        parent_is = ap (λ (y : Node V). y.parent) at_w;
        next_is = ap (λ (y : Node V). y.next) at_w ∙ id;
        vals_size_is = ap (λ (y : Node V). y.vals_size) at_w ∙ half_is;
        vals_is = ap (λ (y : Node V). y.vals) at_w;
        childs_long = ap (λ (y : Node V). length y.childs) at_w ∙ first_long;
        new_id = ap (λ (y : Node V). y.id) at_c ∙ id;
        new_next = ap (λ (y : Node V). y.next) at_c;
        new_vals_size =
            ap (λ (y : Node V). y.vals_size) at_c
            ∙ second_size dflt n w c t w_c big fresh id long childs_long h b count;
        new_val = λ i q.
            ap (λ (y : Node V). val_at dflt y i) at_c
            ∙ new_val_at dflt n w c t w_c big fresh id long childs_long h i b count (omega arith) q;
        new_vals_long =
            ap (λ (y : Node V). length y.vals) at_c
            ∙ second_long dflt n w c t w_c big fresh id long childs_long;
        new_childs_long = ap (λ (y : Node V). length y.childs) at_c ∙ second_childs_long;
        rest_is = rest;
        rest_parent = λ x x_w x_c none_moved.
            ap (λ (y : Node V). y.parent)
              (at_other x
                ∙ adopt_kept dflt n n n c x (t.cache w).childs halved (none_moved inner)
                ∙ halved_other x x_w x_c);
      }

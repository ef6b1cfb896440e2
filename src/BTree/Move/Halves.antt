-- ===== src/BTree/Move/Halves.antt =====
-- The two halves of a node after the first half of `split_node` of include/btree.hpp.
use nkvdb.Prelude.{
  inl, ℕ, ◌+◌, ◌-◌, ◌*◌, ◌/◌, ◌≤◌, ◌<◌, ◌≡◌, ◌≢◌, ◌⊎◌, refl, sym, ap, ◌∙◌, true, false, arith, ◌==◌,
  if◌then◌else◌, length,
}
use nkvdb.BTree.{BTree, put, adopt, move_half, halve_vals, halve_childs, copy_elems, zero_elems}
use nkvdb.BTree.Nodes.{Node, val_at}
use nkvdb.BTree.Copies.{length-copy_elems, get_or-copy_elems}
use nkvdb.BTree.Shape.{child_at}
use nkvdb.BTree.Shape.Split.{IsLeafSplit, IsInnerSplit}

-- A node as `make_node` finds it.
pub record IsFresh {V : Type 0} (n : ℕ) (node : Node V) : Type 0 where
  pub no_vals : node.vals_size ≡ 0
  pub no_childs : node.childs_size ≡ 0
  pub no_parent : node.parent ≡ 0
  pub not_leaf : node.is_leaf ≡ false
  pub vals_long : length node.vals ≡ n * 2
  pub childs_long : length node.childs ≡ n * 2

module _ {V : Type 0} (dflt : V) (n : ℕ) (before after : ℕ → Node V) (w c h : ℕ) where
  pub record IsMoved : Type 0 where
    pub kind :
        IsLeafSplit dflt n before after w c w 0 h ⊎ IsInnerSplit dflt n before after w c w 0 h
    pub id_is : (after w).id ≡ (before w).id
    pub parent_is : (after w).parent ≡ (before w).parent
    pub next_is : (after w).next ≡ c
    pub vals_size_is : (after w).vals_size ≡ h
    pub vals_is : (after w).vals ≡ (before w).vals
    pub childs_long : length (after w).childs ≡ n * 2
    pub new_id : (after c).id ≡ c
    pub new_next : (after c).next ≡ (before w).next
    pub new_vals_size : (after c).vals_size ≡ h
    pub new_val : (i : ℕ) → i < h → val_at dflt (after c) i ≡ val_at dflt (before w) (n + i)
    pub new_vals_long : length (after c).vals ≡ n * 2
    pub new_childs_long : length (after c).childs ≡ n * 2
    pub rest_is :
        (x : ℕ) → x ≢ w → x ≢ c → after x ≡ record (before x) { parent = (after x).parent }
    pub rest_parent :
        (x : ℕ)
        → x ≢ w
        → x ≢ c
        → ((before w).is_leaf ≡ false → (i : ℕ) → i < n → child_at (before w) (n + i) ≢ x)
        → (after x).parent ≡ (before x).parent

module _ {V : Type 0} (dflt : V) (n : ℕ) (w c : ℕ) (t : BTree V) where
  unfoldable pub node : Node V
  node = t.cache w

  unfoldable pub new : Node V
  new = t.cache c

  -- The position from which the values go to the new node.
  unfoldable pub begin : ℕ
  begin = if (t.cache w).is_leaf then (t.cache w).vals_size / 2 else (t.cache w).vals_size / 2 + 1

  unfoldable pub first_vals : Node V
  unfolding node
  first_vals = record node { vals_size = node.vals_size / 2; next = (t.cache c).id }

  unfoldable pub second_vals : Node V
  unfolding begin node new
  second_vals = record new {
    is_leaf = node.is_leaf;
    vals = copy_elems dflt n (0, dflt) (node.vals_size - begin) begin 0 node.vals new.vals;
    vals_size = new.vals_size + (node.vals_size - begin);
    next = node.next;
  }

  unfoldable pub kept : ℕ
  unfolding node
  kept = node.childs_size / 2

  unfoldable pub first : Node V
  unfolding first_vals kept node
  first = record first_vals {
    childs = zero_elems dflt n (node.childs_size - kept) kept node.childs;
    childs_size = kept;
  }

  unfoldable pub second : Node V
  unfolding second_vals kept node new
  second = record second_vals {
    childs = copy_elems dflt n 0 (node.childs_size - kept) kept 0 node.childs new.childs;
    childs_size = kept;
  }

  pub move_leaf :
      (t.cache w).childs_size ≡ 0 → move_half dflt n w c t ≡ put c second_vals (put w first_vals t)
  unfolding move_half halve_vals first_vals second_vals begin node new
  move_leaf e = rw e refl

  pub move_inner :
      ((t.cache w).childs_size == 0) ≡ false
      → move_half dflt n w c t
        ≡ adopt dflt n
            ((t.cache w).childs_size - kept)
            kept
            (t.cache c).id
            (t.cache w).childs
            (put c second (put w first t))
  unfolding move_half halve_vals halve_childs first second first_vals second_vals begin kept node
      new
  move_inner e = rw e refl

  module _ (w_c : w ≢ c) (big : 2 ≤ n) (fresh : IsFresh n (t.cache c)) (id : (t.cache c).id ≡ c)
      (long : length (t.cache w).vals ≡ n * 2)
      (childs_long : length (t.cache w).childs ≡ n * 2) where
    after_leaf :
        (t.cache w).childs_size ≡ 0
        → (x : ℕ)
        → (move_half dflt n w c t).cache x
          ≡ (if x == c then second_vals else if x == w then first_vals else t.cache x)
    after_leaf e x = ap (λ (z : BTree V). z.cache x) (move_leaf e)

    pub new_val_at :
        (h i : ℕ)
        → begin ≡ n
        → (t.cache w).vals_size - n ≡ h
        → h ≤ n
        → i < h
        → val_at dflt second_vals i ≡ val_at dflt (t.cache w) (n + i)
    unfolding second_vals node new
    new_val_at h i b s l q =
        let v =
          get_or-copy_elems dflt n (0, dflt) ((t.cache w).vals_size - begin) begin 0 i
            (t.cache w).vals (t.cache c).vals (omega (arith, fresh.vals_long)) in
        let e : begin + (i - 0) ≡ n + i = omega (arith, b) in
        let cnt : i < 0 + ((t.cache w).vals_size - begin) = omega (arith, b, s) in
        ground (arith, rw e at v, cnt)

    begin_leaf : (t.cache w).is_leaf ≡ true → begin ≡ (t.cache w).vals_size / 2
    unfolding begin
    begin_leaf leaf = ground (arith, leaf)

    pub begin_inner : (t.cache w).is_leaf ≡ false → begin ≡ (t.cache w).vals_size / 2 + 1
    unfolding begin
    begin_inner inner = ground (arith, inner)

    pub second_size :
        (h : ℕ) → begin ≡ n → (t.cache w).vals_size - n ≡ h → second_vals.vals_size ≡ h
    unfolding second_vals node new
    second_size h b s = omega (arith, b, s, fresh.no_vals)

    pub second_long : length second_vals.vals ≡ n * 2
    unfolding second_vals node new
    second_long =
        length-copy_elems dflt n (0, dflt) ((t.cache w).vals_size - begin) begin 0 (t.cache w).vals
          (t.cache c).vals
        ∙ fresh.vals_long

    pub leaf_moved :
        (t.cache w).is_leaf ≡ true
        → (t.cache w).childs_size ≡ 0
        → (t.cache w).vals_size ≡ n * 2
        → IsMoved dflt n t.cache (move_half dflt n w c t).cache w c n
    unfolding second_vals first_vals node new
    leaf_moved leaf childless full =
        let half : (t.cache w).vals_size / 2 ≡ n = omega (arith, full) in
        let b : begin ≡ n = begin_leaf leaf ∙ half in
        let at_w : (move_half dflt n w c t).cache w ≡ first_vals =
          ground (arith, after_leaf childless w, w_c) in
        let at_c : (move_half dflt n w c t).cache c ≡ second_vals =
          ground (arith, after_leaf childless c) in
        let at_x : (x : ℕ) → x ≢ w → x ≢ c → (move_half dflt n w c t).cache x ≡ t.cache x =
          λ x x_w x_c. ground (arith, after_leaf childless x, x_w, x_c) in
        record {
          kind = inl (record {
            leaf = leaf;
            leaf' = ap (λ (y : Node V). y.is_leaf) at_w ∙ leaf;
            new_leaf = ap (λ (y : Node V). y.is_leaf) at_c ∙ leaf;
            full = full;
            half = refl;
            childless = ap (λ (y : Node V). y.childs_size) at_w ∙ childless;
            new_childless = ap (λ (y : Node V). y.childs_size) at_c ∙ fresh.no_childs;
          });
          id_is = ap (λ (y : Node V). y.id) at_w;
          parent_is = ap (λ (y : Node V). y.parent) at_w;
          next_is = ap (λ (y : Node V). y.next) at_w ∙ id;
          vals_size_is = ap (λ (y : Node V). y.vals_size) at_w ∙ half;
          vals_is = ap (λ (y : Node V). y.vals) at_w;
          childs_long = ap (λ (y : Node V). length y.childs) at_w ∙ childs_long;
          new_id = ap (λ (y : Node V). y.id) at_c ∙ id;
          new_next = ap (λ (y : Node V). y.next) at_c;
          new_vals_size =
              ap (λ (y : Node V). y.vals_size) at_c ∙ second_size n b (omega (arith, full));
          new_val = λ i q.
              ap (λ (y : Node V). val_at dflt y i) at_c
              ∙ new_val_at n i b (omega (arith, full)) (omega arith) q;
          new_vals_long = ap (λ (y : Node V). length y.vals) at_c ∙ second_long;
          new_childs_long = ap (λ (y : Node V). length y.childs) at_c ∙ fresh.childs_long;
          rest_is = λ x x_w x_c.
              at_x x x_w x_c
              ∙ ap (λ z. record (t.cache x) { parent = z })
                  (sym (ap (λ (y : Node V). y.parent) (at_x x x_w x_c)));
          rest_parent = λ x x_w x_c q. ap (λ (y : Node V). y.parent) (at_x x x_w x_c);
        }

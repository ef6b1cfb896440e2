-- ===== src/BTree/Move/Up.antt =====
-- `insertValue` and `insertChild` of include/btree.hpp on the parent of a node that is split.
use nkvdb.Prelude.{
  ℕ, ◌+◌, ◌-◌, ◌*◌, ◌≤◌, ◌<◌, ◌≡◌, ◌≢◌, refl, sym, ap, ◌∙◌, true, false, arith, ltb, ◌==◌,
  if◌then◌else◌, dec_lt, ℕ_discrete, length,
}
use nkvdb.Prelude.Result.{ok}
use nkvdb.BTree.Array.{insert_to_array, insert_to_array_last, length-insert_to_array}
use nkvdb.BTree.Nodes.{Node, val_at, insert_value, insert_child, lower_bound}
use nkvdb.BTree.Nodes.Insert.{insert_value-eq}
use nkvdb.BTree.Copies.{get_or-insert_to_array}
use nkvdb.BTree.Shape.{key_at}
use nkvdb.BTree.Shape.Search.{lower_bound-IsLowerBound}

module _ {V : Type 0} (dflt : V) (n key : ℕ) (val : V) (node : Node V) (d : ℕ) where
  -- The key is not among those of the node, and belongs at the place `d`.
  pub record BelongsAt : Type 0 where
    pub in_range : d ≤ node.vals_size
    pub before : (i : ℕ) → i < d → key_at dflt node i < key
    pub after : (i : ℕ) → d ≤ i → i < node.vals_size → key < key_at dflt node i
    pub room : node.vals_size < n * 2
    pub vals_long : length node.vals ≡ n * 2

  module _ (b : BelongsAt) where
    low_is : lower_bound key node.vals_size node.vals ≡ d
    low_is =
        let low = lower_bound key node.vals_size node.vals in
        let l = lower_bound-IsLowerBound dflt key node (omega (arith, b.room, b.vals_long)) in
        elim (dec_lt low d) [
          | yes lt ↦ absurd (omega (arith, l.at (omega (arith, b.in_range)), b.before low lt))
          | no ge ↦ elim (dec_lt d low) [
            | yes lt ↦
                absurd
                  (omega (arith, l.before d lt, b.after d (omega arith) (omega (arith, l.most))))
            | no ge' ↦ omega arith
          ]
        ]

    abbrev pub with_value : Node V
    with_value = record node {
      vals = insert_to_array (node.vals_size + 1) d (key, val) node.vals;
      vals_size = node.vals_size + 1;
    }

    pub insert_value_is : insert_value dflt key val node ≡ with_value
    insert_value_is =
        insert_value-eq dflt key val node
        ∙ ap
            (λ i. record node {
              vals = insert_to_array (node.vals_size + 1) i (key, val) node.vals;
              vals_size = node.vals_size + 1;
            })
            low_is

    pub with_value_at :
        (i : ℕ)
        → i ≤ node.vals_size
        → val_at dflt with_value i ≡ (
            if i == d
            then (key, val)
            else if ltb d i
            then val_at dflt node (i - 1)
            else val_at dflt node i)
    with_value_at i l =
        let v =
          get_or-insert_to_array (node.vals_size + 1) d i (key, val) (0, dflt) node.vals
            (omega (arith, b.in_range)) (omega (arith, b.vals_long, b.room)) in
        ground (arith, v)

    key_at_place : key_at dflt with_value d ≡ key
    key_at_place = let v = with_value_at d b.in_range in ground (arith, v)

    with_low : lower_bound key with_value.vals_size with_value.vals ≡ d
    with_low =
        let low = lower_bound key with_value.vals_size with_value.vals in
        let l = lower_bound-IsLowerBound dflt key with_value (
          omega (
            arith,
            b.room,
            b.vals_long,
            length-insert_to_array (node.vals_size + 1) d (key, val) node.vals,
          )) in
        elim (dec_lt low d) [
          | yes lt ↦
              let v = with_value_at low (omega (arith, b.in_range)) in
              absurd (ground (arith, l.at (omega (arith, b.in_range)), b.before low lt, v))
          | no ge ↦ elim (dec_lt d low) [
            | yes lt ↦ absurd (omega (arith, l.before d lt, key_at_place))
            | no ge' ↦ omega arith
          ]
        ]

    -- The child goes to the place after the one at which its key was put.
    pub insert_child_is :
        (c : ℕ)
        → node.childs_size ≡ node.vals_size + 1
        → insert_child dflt key c with_value
          ≡ ok (record with_value {
            childs = insert_to_array (node.childs_size + 1) (d + 1) c node.childs;
            childs_size = node.childs_size + 1;
          })
    unfolding insert_child
    insert_child_is c count = elim (ℕ_discrete d node.vals_size) [
      | yes e ↦
          let at : with_value.vals_size - 1 ≡ d = omega arith in
          let k : key_at dflt with_value (with_value.vals_size - 1) ≡ key =
            ap (key_at dflt with_value) at ∙ key_at_place in
          let test : (key == key_at dflt with_value (with_value.vals_size - 1)) ≡ true =
            ground (arith, k) in
          let e' : node.childs_size ≡ d + 1 = omega arith in
          rw test (
            ap (λ xs. ok (record with_value { childs = xs; childs_size = node.childs_size + 1 }))
              (sym (insert_to_array_last node.childs_size c node.childs)
                ∙ ap (λ i. insert_to_array (node.childs_size + 1) i c node.childs) e'))
      | no ne ↦
          let at : with_value.vals_size - 1 ≡ node.vals_size = omega arith in
          let lt : d < node.vals_size = omega (arith, b.in_range) in
          let v = with_value_at node.vals_size (omega arith) in
          let above = b.after (node.vals_size - 1) (omega arith) (omega arith) in
          let k : key_at dflt with_value (with_value.vals_size - 1) ≢ key =
            λ q. absurd (ground (arith, ap (key_at dflt with_value) at, q, v, above, lt)) in
          let test : (key == key_at dflt with_value (with_value.vals_size - 1)) ≡ false =
            ground (arith, k) in
          let test' : (d == with_value.vals_size) ≡ false = ground (arith, lt) in
          rw (test, with_low, test') refl
    ]

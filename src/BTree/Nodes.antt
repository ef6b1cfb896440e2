-- ===== src/BTree/Nodes.antt =====
-- struct Node of include/btree.h, with `insertValue` and `insertChild` of include/btree.hpp.
pub mod Insert
use nkvdb.Prelude.{
  ℕ, zero, suc, ◌+◌, ◌-◌, ◌*◌, Bool, List, [], ◌∷◌, get_or, set, replicate, ltb, leb, ◌==◌,
  if◌then◌else◌,
}
use nkvdb.Prelude.Result.{Result, ok, err, assertion}
use nkvdb.BTree.Array.{insert_to_array}

-- The arrays have `2 * n` elements; those before `vals_size` and `childs_size` are in use.
pub record Node (V : Type 0) : Type 0 where
  pub vals : List (ℕ × V)
  pub vals_size : ℕ
  pub childs : List ℕ
  pub childs_size : ℕ
  pub id : ℕ
  pub is_leaf : Bool
  pub parent : ℕ
  pub next : ℕ

-- `std::lower_bound` over the first `n` elements: the place of the first key that is not below.
-- The source halves the range, and finds this place where the keys are sorted, as a tree's are.
unfoldable pub lower_bound : {V : Type 0} → ℕ → ℕ → List (ℕ × V) → ℕ
lower_bound key zero vals = 0
lower_bound key (suc n) [] = 0
lower_bound key (suc n) (v ∷ vals) = if ltb v.0 key then suc (lower_bound key n vals) else 0

module _ {V : Type 0} (dflt : V) where
  -- `vals[i].first` and `vals[i]`.
  abbrev pub val_at : Node V → ℕ → ℕ × V
  val_at node i = get_or node.vals i (0, dflt)

  -- `Node::insertValue`.
  unfoldable pub insert_value : ℕ → V → Node V → Node V
  insert_value key val node =
      let d = lower_bound key node.vals_size node.vals in
      if node.vals_size == 0
      then record node { vals = set node.vals 0 (key, val); vals_size = node.vals_size + 1 }
      else if ltb key (val_at node 0).0
      then record node {
        vals = insert_to_array (node.vals_size + 1) 0 (key, val) node.vals;
        vals_size = node.vals_size + 1;
      }
      else if d == node.vals_size
      then record node {
        vals = set node.vals node.vals_size (key, val);
        vals_size = node.vals_size + 1;
      }
      else record node {
        vals = insert_to_array (node.vals_size + 1) d (key, val) node.vals;
        vals_size = node.vals_size + 1;
      }

  -- `Node::insertChild`, for a child at position `c`. The last branch runs into `assert(false)`.
  unfoldable pub insert_child : ℕ → ℕ → Node V → Result (Node V)
  insert_child key c node =
      let d = lower_bound key node.vals_size node.vals in
      if key == (val_at node (node.vals_size - 1)).0
      then ok (record node {
        childs = set node.childs node.childs_size c;
        childs_size = node.childs_size + 1;
      })
      else if d == node.vals_size
      then err assertion
      else ok (record node {
        childs = insert_to_array (node.childs_size + 1) (d + 1) c node.childs;
        childs_size = node.childs_size + 1;
      })

-- `BTree::isFull`.
unfoldable pub is_full : {V : Type 0} → ℕ → Node V → Bool
is_full n node = leb (n * 2) (node.vals_size + 1)

-- ===== src/BTree/Shape/Split.antt =====
-- What `split_node` of include/btree.hpp leaves of a node `w`, its parent `p` and the new node `c`,
-- where `w` is the child at the place `d` of `p`.
pub mod Facts
pub mod Children
pub mod Halves
pub mod Up
pub mod Rest
pub mod Parts
pub mod Tree
pub mod Stored
pub mod Sizes
use nkvdb.Prelude.{
  ℕ, zero, suc, ◌+◌, ◌-◌, ◌*◌, ◌≤◌, ◌<◌, ◌≡◌, ◌≢◌, ◌⊎◌, Bool, true, false, length, ltb, ◌==◌,
  if◌then◌else◌,
}
use nkvdb.BTree.Nodes.{Node, val_at}
use nkvdb.BTree.Shape.{Ghost, child_at, key_at}

-- The second half of the keys of `w` now belongs to `c`.
abbrev pub split_ghost : ℕ → ℕ → ℕ → Ghost → Ghost
split_ghost w c m g = record {
  live = λ x. if x == c then true else g.live x;
  lo = λ x. if x == c then m else g.lo x;
  hi = λ x. if x == w then m else if x == c then g.hi w else g.hi x;
  level = λ x. if x == c then g.level w else g.level x;
}

module _ {V : Type 0} (dflt : V) (n : ℕ) (before after : ℕ → Node V) (w c p d h : ℕ) where
  -- The halves of a leaf.
  pub record IsLeafSplit : Type 0 where
    pub leaf : (before w).is_leaf ≡ true
    pub leaf' : (after w).is_leaf ≡ true
    pub new_leaf : (after c).is_leaf ≡ true
    pub full : (before w).vals_size ≡ n * 2
    pub half : h ≡ n
    pub childless : (after w).childs_size ≡ 0
    pub new_childless : (after c).childs_size ≡ 0

  -- The halves of an inner node, whose middle value is in neither.
  pub record IsInnerSplit : Type 0 where
    pub inner : (before w).is_leaf ≡ false
    pub inner' : (after w).is_leaf ≡ false
    pub new_inner : (after c).is_leaf ≡ false
    pub full : (before w).vals_size + 1 ≡ n * 2
    pub half : h + 1 ≡ n
    pub childs_size : (after w).childs_size ≡ n
    pub new_childs_size : (after c).childs_size ≡ n
    pub child : (i : ℕ) → i < n → child_at (after w) i ≡ child_at (before w) i
    pub new_child : (i : ℕ) → i < n → child_at (after c) i ≡ child_at (before w) (n + i)
    pub moved :
        (i x : ℕ)
        → i < n
        → child_at (before w) (n + i) ≡ x
        → x ≢ w
        → x ≢ c
        → x ≢ p
        → (after x).parent ≡ c

  pub record IsSplit : Type 0 where
    pub kind : IsLeafSplit ⊎ IsInnerSplit
    -- The node.
    pub id_is : (after w).id ≡ (before w).id
    pub parent_is : (after w).parent ≡ (before w).parent
    pub next_is : (after w).next ≡ c
    pub vals_size_is : (after w).vals_size ≡ h
    pub vals_is : (after w).vals ≡ (before w).vals
    pub childs_long : length (after w).childs ≡ n * 2
    -- The new node.
    pub new_id : (after c).id ≡ c
    pub new_parent : (after c).parent ≡ p
    pub new_next : (after c).next ≡ (before w).next
    pub new_vals_size : (after c).vals_size ≡ h
    pub new_val : (i : ℕ) → i < h → val_at dflt (after c) i ≡ val_at dflt (before w) (n + i)
    pub new_vals_long : length (after c).vals ≡ n * 2
    pub new_childs_long : length (after c).childs ≡ n * 2
    -- The parent.
    pub up_is_leaf : (after p).is_leaf ≡ (before p).is_leaf
    pub up_id : (after p).id ≡ (before p).id
    pub up_parent : (after p).parent ≡ (before p).parent
    pub up_vals_size : (after p).vals_size ≡ (before p).vals_size + 1
    pub up_childs_size : (after p).childs_size ≡ (before p).childs_size + 1
    pub up_val :
        (i : ℕ)
        → i ≤ (before p).vals_size
        → val_at dflt (after p) i ≡ (
            if i == d
            then val_at dflt (before w) h
            else if ltb d i
            then val_at dflt (before p) (i - 1)
            else val_at dflt (before p) i)
    pub up_child :
        (i : ℕ)
        → i ≤ (before p).childs_size
        → child_at (after p) i ≡ (
            if i == d + 1
            then c
            else if ltb (d + 1) i
            then child_at (before p) (i - 1)
            else child_at (before p) i)
    pub up_vals_long : length (after p).vals ≡ n * 2
    pub up_childs_long : length (after p).childs ≡ n * 2
    -- The other nodes.
    pub rest_is :
        (x : ℕ) → x ≢ w → x ≢ c → x ≢ p → after x ≡ record (before x) { parent = (after x).parent }
    pub rest_parent :
        (x : ℕ)
        → x ≢ w
        → x ≢ c
        → x ≢ p
        → ((before w).is_leaf ≡ false → (i : ℕ) → i < n → child_at (before w) (n + i) ≢ x)
        → (after x).parent ≡ (before x).parent

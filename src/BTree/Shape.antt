-- ===== src/BTree/Shape.antt =====
-- When the node array of include/btree.h is a tree: what its nodes are to one another.
pub mod Search
pub mod Unique
pub mod Find
pub mod Split
use nkvdb.Prelude.{
  ℕ, zero, suc, ◌+◌, ◌-◌, ◌*◌, ◌≤◌, ◌<◌, ◌≡◌, ◌≢◌, ◌⊎◌, Bool, true, false, get_or, length, word,
  ltb, ◌==◌, if◌then◌else◌,
}
use nkvdb.BTree.Nodes.{Node, val_at}

-- What the tree does not store: which positions have its nodes, the keys that belong to each, from
-- `lo` on and below `hi`, and the height over the leaves.
pub record Ghost : Type 0 where
  pub live : ℕ → Bool
  pub lo : ℕ → ℕ
  pub hi : ℕ → ℕ
  pub level : ℕ → ℕ

abbrev pub child_at : {V : Type 0} → Node V → ℕ → ℕ
child_at node i = get_or node.childs i 0

module _ {V : Type 0} (dflt : V) where
  abbrev pub key_at : Node V → ℕ → ℕ
  key_at node i = (val_at dflt node i).0

  -- Where the keys of the child at `i` begin.
  abbrev pub bound : Node V → ℕ → ℕ → ℕ → ℕ
  bound node l h i = if i == 0 then l else if ltb node.vals_size i then h else key_at node (i - 1)

  module _ (cache : ℕ → Node V) (g : Ghost) where
    pub record IsChildAt (x i : ℕ) : Type 0 where
      pub alive : g.live (child_at (cache x) i) ≡ true
      pub parent_is : (cache (child_at (cache x) i)).parent ≡ x
      pub level_is : suc (g.level (child_at (cache x) i)) ≡ g.level x
      pub lo_is : g.lo (child_at (cache x) i) ≡ bound (cache x) (g.lo x) (g.hi x) i
      pub hi_is : g.hi (child_at (cache x) i) ≡ bound (cache x) (g.lo x) (g.hi x) (i + 1)

    -- The leaf to which `next` leads, if any, has the keys that follow.
    abbrev pub HasNext : ℕ → Type 0
    HasNext x =
        (((cache x).next ≡ 0) × (g.hi x ≡ word))
        ⊎ ((g.live (cache x).next ≡ true)
            × (g.lo (cache x).next ≡ g.hi x)
            × (g.level (cache x).next ≡ 0))

    pub record IsLeafAt (x : ℕ) : Type 0 where
      pub leaf : (cache x).is_leaf ≡ true
      pub childless : (cache x).childs_size ≡ 0
      pub level_is : g.level x ≡ 0
      pub from_lo : (i : ℕ) → i < (cache x).vals_size → g.lo x ≤ key_at (cache x) i
      pub next_is : HasNext x

    pub record IsInnerAt (x : ℕ) : Type 0 where
      pub inner : (cache x).is_leaf ≡ false
      pub childs_count : (cache x).childs_size ≡ (cache x).vals_size + 1
      pub from_lo : (i : ℕ) → i < (cache x).vals_size → g.lo x < key_at (cache x) i
      pub child : (i : ℕ) → i ≤ (cache x).vals_size → IsChildAt x i

    pub record HasParent (x : ℕ) : Type 0 where
      pub alive : g.live (cache x).parent ≡ true
      pub level_is : g.level (cache x).parent ≡ suc (g.level x)
      pub place : ℕ
      pub in_range : place ≤ (cache (cache x).parent).vals_size
      pub is_child : child_at (cache (cache x).parent) place ≡ x

    pub record IsNodeAt (n root x : ℕ) : Type 0 where
      pub id_is : (cache x).id ≡ x
      pub vals_long : length (cache x).vals ≡ n * 2
      pub childs_long : length (cache x).childs ≡ n * 2
      pub some_key : g.lo x < g.hi x
      pub below_hi : (i : ℕ) → i < (cache x).vals_size → key_at (cache x) i < g.hi x
      pub sorted :
          (i j : ℕ) → i < j → j < (cache x).vals_size → key_at (cache x) i < key_at (cache x) j
      pub kind : IsLeafAt x ⊎ IsInnerAt x
      pub above : ((x ≡ root) × ((cache x).parent ≡ 0)) ⊎ HasParent x

    -- The nodes of a tree with this root; how full they may be is said apart.
    pub record IsTree (n root : ℕ) : Type 0 where
      pub null : g.live 0 ≡ false
      pub root_live : g.live root ≡ true
      pub root_lo : g.lo root ≡ 0
      pub root_hi : g.hi root ≡ word
      pub root_top : (cache root).parent ≡ 0
      pub deep : (x : ℕ) → g.live x ≡ true → g.level x ≤ g.level root
      pub node : (x : ℕ) → g.live x ≡ true → IsNodeAt n root x

  -- A leaf of the tree stores the value for the key.
  pub record Has (cache : ℕ → Node V) (g : Ghost) (key : ℕ) (val : V) : Type 0 where
    pub leaf : ℕ
    pub alive : g.live leaf ≡ true
    pub is_leaf : (cache leaf).is_leaf ≡ true
    pub place : ℕ
    pub in_range : place < (cache leaf).vals_size
    pub val_is : val_at dflt (cache leaf) place ≡ (key, val)

-- How many values a node may have: a leaf is split when it is full before an insertion, an inner
-- node when it is full after one.
abbrev pub IsSized : {V : Type 0} → ℕ → Node V → Type 0
IsSized n node =
    ((node.is_leaf ≡ true) × (node.vals_size < n * 2))
    ⊎ ((node.is_leaf ≡ false) × (0 < node.vals_size) × (node.vals_size + 1 < n * 2))

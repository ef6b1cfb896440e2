-- ===== src/BTree/Split.antt =====
-- `split_node` of include/btree.hpp on the tree as a whole.
pub mod Start
pub mod Step
pub mod Root
pub mod Raised
pub mod Top
pub mod Crown
pub mod Ready
pub mod Rounds
use nkvdb.Prelude.{ℕ, ◌+◌, ◌*◌, ◌≤◌, ◌<◌, ◌≡◌, ◌≢◌, ◌⊎◌, true, false}
use nkvdb.BTree.{BTree}
use nkvdb.BTree.Nodes.{Node}
use nkvdb.BTree.Shape.{Ghost, IsTree, IsSized}
use nkvdb.BTree.Move.Halves.{IsFresh}

module _ {V : Type 0} (dflt : V) (n : ℕ) (g : Ghost) (t : BTree V) where
  -- What stays true between two insertions: a tree whose nodes are not full, and free nodes as they
  -- were in the new file.
  pub record IsGood : Type 0 where
    pub tree : IsTree dflt t.cache g n t.root
    pub sized : (x : ℕ) → g.live x ≡ true → IsSized n (t.cache x)
    pub fresh : (x : ℕ) → t.cache_pos ≤ x → IsFresh n (t.cache x)
    pub free : (x : ℕ) → t.cache_pos ≤ x → g.live x ≡ false
    pub pos : 0 < t.cache_pos

  -- The same, but for one node that is to be split.
  pub record IsOver (w : ℕ) : Type 0 where
    pub tree : IsTree dflt t.cache g n t.root
    pub alive : g.live w ≡ true
    pub full :
        (((t.cache w).is_leaf ≡ true) × ((t.cache w).vals_size ≡ n * 2))
        ⊎ (((t.cache w).is_leaf ≡ false) × ((t.cache w).vals_size + 1 ≡ n * 2))
    pub sized : (x : ℕ) → x ≢ w → g.live x ≡ true → IsSized n (t.cache x)
    pub fresh : (x : ℕ) → t.cache_pos ≤ x → IsFresh n (t.cache x)
    pub free : (x : ℕ) → t.cache_pos ≤ x → g.live x ≡ false
    pub pos : 0 < t.cache_pos

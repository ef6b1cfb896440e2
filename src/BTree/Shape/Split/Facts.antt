-- ===== src/BTree/Shape/Split/Facts.antt =====
-- Where the middle key of a node that `split_node` of include/btree.hpp splits stands.
use nkvdb.Prelude.{ℕ, suc, ◌+◌, ◌≤◌, ◌<◌, ◌≡◌, ◌≢◌, sym, ap, ◌∙◌, inl, inr, true, false, arith}
use nkvdb.BTree.Nodes.{Node}
use nkvdb.BTree.Shape.{Ghost, child_at, key_at, bound, IsLeafAt, IsInnerAt, IsNodeAt, IsTree}
use nkvdb.BTree.Shape.Split.{IsSplit, IsLeafSplit, IsInnerSplit}
use nkvdb.BTree.Shape.Unique.{keys_before, keys_after, place_unique, inner_of}

-- A tree, and a node of it that is split.
pub record Splitting {V : Type 0} (dflt : V) (n : ℕ) (before after : ℕ → Node V) (g : Ghost)
    (root w c p d h : ℕ) : Type 0 where
  pub tree : IsTree dflt before g n root
  pub split : IsSplit dflt n before after w c p d h
  pub big : 2 ≤ n
  pub alive : g.live w ≡ true
  pub new : g.live c ≡ false
  pub new_pos : 0 < c
  pub up : (before w).parent ≡ p
  pub up_alive : g.live p ≡ true
  pub up_level : g.level p ≡ suc (g.level w)
  pub in_range : d ≤ (before p).vals_size
  pub is_child : child_at (before p) d ≡ w

module _ {V : Type 0} (dflt : V) (n : ℕ) (before after : ℕ → Node V) (g : Ghost)
    (root w c p d h : ℕ) (s : Splitting dflt n before after g root w c p d h) where
  abbrev pub mid : ℕ
  mid = key_at dflt (before w) h

  pub live-ne-c : (x : ℕ) → g.live x ≡ true → x ≢ c
  live-ne-c x alive e = absurd (ground (arith, alive, s.new, e))

  pub w-ne-p : w ≢ p
  w-ne-p e = absurd (omega (arith, s.up_level, ap g.level e))

  pub child_ne_p : (x : ℕ) → suc (g.level x) ≡ g.level w → x ≢ p
  child_ne_p x l e = absurd (omega (arith, l, s.up_level, ap g.level e))

  pub up_inner : IsInnerAt dflt before g p
  up_inner = inner_of dflt n before g root s.tree p s.up_alive (omega (arith, s.up_level))

  pub up_node : IsNodeAt dflt before g n root p
  up_node = s.tree.node p s.up_alive

  pub node_at : IsNodeAt dflt before g n root w
  node_at = s.tree.node w s.alive

  pub lo_is : g.lo w ≡ bound dflt (before p) (g.lo p) (g.hi p) d
  lo_is = sym (ap g.lo s.is_child) ∙ (up_inner.child d s.in_range).lo_is

  pub hi_is : g.hi w ≡ bound dflt (before p) (g.lo p) (g.hi p) (d + 1)
  hi_is = sym (ap g.hi s.is_child) ∙ (up_inner.child d s.in_range).hi_is

  pub half-lt : h < (before w).vals_size
  half-lt = elim s.split.kind [
    | inl l ↦ omega (arith, l.full, l.half, s.big)
    | inr i ↦ omega (arith, i.full, i.half, s.big)
  ]

  pub half_pos : 0 < h
  half_pos = elim s.split.kind [
    | inl l ↦ omega (arith, l.half, s.big)
    | inr i ↦ omega (arith, i.half, s.big)
  ]

  pub mid-lt-hi : mid < g.hi w
  mid-lt-hi = node_at.below_hi h half-lt

  pub lo-lt-mid : g.lo w < mid
  lo-lt-mid = elim node_at.kind [
    | inl l ↦
        omega (arith, l.from_lo 0 (omega (arith, half-lt)), node_at.sorted 0 h half_pos half-lt)
    | inr i ↦ i.from_lo h half-lt
  ]

  -- A key of the parent at the node's place or after it is above the middle one, and one before it
  -- is below.
  pub up_key_after : (i : ℕ) → d ≤ i → i < (before p).vals_size → mid < key_at dflt (before p) i
  up_key_after i l h' = omega (
    arith,
    keys_after dflt n before g root p i d up_node up_inner l h',
    ap g.hi s.is_child,
    mid-lt-hi,
  )

  pub up_key_before : (i : ℕ) → i < d → key_at dflt (before p) i < mid
  up_key_before i l = omega (
    arith,
    keys_before dflt n before g root p i d up_node up_inner s.in_range l,
    ap g.lo s.is_child,
    lo-lt-mid,
  )

  -- The children of one node are different.
  pub child_injective :
      (x i j : ℕ)
      → g.live x ≡ true
      → IsInnerAt dflt before g x
      → i ≤ (before x).vals_size
      → j ≤ (before x).vals_size
      → child_at (before x) i ≡ child_at (before x) j
      → i ≡ j
  child_injective x i j alive inner li lj e =
      let a = inner.child i li in
      let b = inner.child j lj in
      let y = child_at (before x) i in
      let some_key = (s.tree.node y a.alive).some_key in
      place_unique dflt n before g root x i j (g.lo y) (s.tree.node x alive) inner li lj
        (omega (arith, a.lo_is)) (omega (arith, a.hi_is, some_key))
        (omega (arith, b.lo_is, ap g.lo e)) (omega (arith, b.hi_is, ap g.hi e, some_key))

  pub inner_at : (before w).is_leaf ≡ false → IsInnerAt dflt before g w
  inner_at e = elim node_at.kind [ inl l ↦ absurd (ground (arith, e, l.leaf)) | inr i ↦ i ]

  pub leaf_split : (before w).is_leaf ≡ true → IsLeafSplit dflt n before after w c p d h
  leaf_split e = elim s.split.kind [ inl l ↦ l | inr i ↦ absurd (ground (arith, e, i.inner)) ]

  pub inner_split : (before w).is_leaf ≡ false → IsInnerSplit dflt n before after w c p d h
  inner_split e = elim s.split.kind [ inl l ↦ absurd (ground (arith, e, l.leaf)) | inr i ↦ i ]

  pub leaf_at : (before w).is_leaf ≡ true → IsLeafAt dflt before g w
  leaf_at e = elim node_at.kind [ inl l ↦ l | inr i ↦ absurd (ground (arith, e, i.inner)) ]

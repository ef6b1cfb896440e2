-- ===== src/BTree/Shape/Split/Children.antt =====
-- The children of the nodes after `split_node` of include/btree.hpp.
use nkvdb.Prelude.{ℕ, ◌+◌, ◌≡◌, ◌≢◌, sym, ap, ◌∙◌, true, arith, ℕ_discrete}
use nkvdb.BTree.Nodes.{Node}
use nkvdb.BTree.Shape.{Ghost, child_at, bound, IsChildAt}
use nkvdb.BTree.Shape.Split.{split_ghost}
use nkvdb.BTree.Shape.Split.Facts.{Splitting, mid, live-ne-c, inner_at, inner_split}

module _ {V : Type 0} (dflt : V) (n : ℕ) (before after : ℕ → Node V) (g : Ghost)
    (root w c p d h : ℕ) (s : Splitting dflt n before after g root w c p d h) where
  abbrev pub g' : Ghost
  g' = split_ghost w c (mid dflt n before after g root w c p d h s) g

  pub live_old : (x : ℕ) → g.live x ≡ true → g'.live x ≡ true
  live_old x alive = ground (arith, alive)

  pub new_level : g'.level c ≡ g.level w
  new_level = ground arith

  pub new_lo : g'.lo c ≡ mid dflt n before after g root w c p d h s
  new_lo = ground arith

  pub new_hi : g'.hi c ≡ g.hi w
  new_hi = let ne = live-ne-c dflt n before after g root w c p d h s w s.alive in ground (arith, ne)

  pub node_hi : g'.hi w ≡ mid dflt n before after g root w c p d h s
  node_hi = ground arith

  module _ (x : ℕ) (alive : g.live x ≡ true) where
    ne : x ≢ c
    ne = live-ne-c dflt n before after g root w c p d h s x alive

    pub lo_old : g'.lo x ≡ g.lo x
    lo_old = let ne' = ne in ground (arith, ne')

    pub level_old : g'.level x ≡ g.level x
    level_old = let ne' = ne in ground (arith, ne')

    pub hi_old : x ≢ w → g'.hi x ≡ g.hi x
    hi_old other = let ne' = ne in ground (arith, ne', other)

    -- A node that is no child of the split one keeps its parent.
    pub parent_kept : (before x).parent ≢ w → (after x).parent ≡ (before x).parent
    parent_kept other = elim (ℕ_discrete x w) [
      | yes e ↦ rw e s.split.parent_is
      | no x_w ↦ elim (ℕ_discrete x p) [
        | yes e ↦ rw e s.split.up_parent
        | no x_p ↦ s.split.rest_parent x x_w ne x_p (λ inner i l e.
            let sp = inner_split dflt n before after g root w c p d h s inner in
            let at = inner_at dflt n before after g root w c p d h s inner in
            other (
              sym (ap (λ y. (before y).parent) e)
              ∙ (at.child (n + i) (omega (arith, sp.full))).parent_is))
      ]
    ]

  -- A node that is neither the split one nor its parent keeps what it has but for its parent.
  module _ (y : ℕ) (alive : g.live y ≡ true) (y_w : y ≢ w) (y_p : y ≢ p) where
    pub same : after y ≡ record (before y) { parent = (after y).parent }
    same = s.split.rest_is y y_w (live-ne-c dflt n before after g root w c p d h s y alive) y_p

    pub child_same : (i : ℕ) → child_at (after y) i ≡ child_at (before y) i
    child_same i = ap (λ (node : Node V). child_at node i) same

    bound_same :
        (i : ℕ)
        → bound dflt (after y) (g'.lo y) (g'.hi y) i ≡ bound dflt (before y) (g.lo y) (g.hi y) i
    bound_same i =
        rw (lo_old y alive, hi_old y alive y_w)
          (ap (λ (node : Node V). bound dflt node (g.lo y) (g.hi y) i) same)

    pub child_kept : (i : ℕ) → IsChildAt dflt before g y i → IsChildAt dflt after g' y i
    child_kept i child =
        let x = child_at (before y) i in
        let x_w : x ≢ w = λ e. y_p (sym child.parent_is ∙ ap (λ z. (before z).parent) e ∙ s.up) in
        record {
          alive = rw (child_same i) (live_old x child.alive);
          parent_is =
              rw (child_same i)
                (parent_kept x child.alive (rw child.parent_is y_w) ∙ child.parent_is);
          level_is = rw (child_same i, level_old x child.alive, level_old y alive) child.level_is;
          lo_is = rw (child_same i, bound_same i, lo_old x child.alive) child.lo_is;
          hi_is = rw (child_same i, bound_same (i + 1), hi_old x child.alive x_w) child.hi_is;
        }

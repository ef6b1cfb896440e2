-- ===== src/BTree/Shape/Split/Sizes.antt =====
-- How full the nodes are after `split_node` of include/btree.hpp, and the nodes it does not reach.
use nkvdb.Prelude.{ℕ, ◌+◌, ◌≡◌, ◌≢◌, inl, inr, sym, ap, ◌∙◌, true, false, arith, ℕ_discrete}
use mathlib.Core.Path.{subst}
use nkvdb.BTree.Nodes.{Node}
use nkvdb.BTree.Shape.{Ghost, IsSized}
use nkvdb.BTree.Shape.Split.Facts.{Splitting, inner_split, inner_at}
use nkvdb.BTree.Shape.Split.Children.{same}
use nkvdb.BTree.Shape.Split.Tree.{gh, live_cases}

module _ {V : Type 0} (dflt : V) (n : ℕ) (before after : ℕ → Node V) (g : Ghost)
    (root w c p d h : ℕ) (s : Splitting dflt n before after g root w c p d h) where
  halves-IsSized : IsSized n (after w) × IsSized n (after c)
  halves-IsSized =
      let big = s.big in
      elim s.split.kind [
        | inl l ↦ (
          inl (l.leaf', omega (arith, s.split.vals_size_is, l.half, big)),
          inl (l.new_leaf, omega (arith, s.split.new_vals_size, l.half, big)),
        )
        | inr k ↦ (
          inr (
            k.inner',
            omega (arith, s.split.vals_size_is, k.half, big),
            omega (arith, s.split.vals_size_is, k.half, big),
          ),
          inr (
            k.new_inner,
            omega (arith, s.split.new_vals_size, k.half, big),
            omega (arith, s.split.new_vals_size, k.half, big),
          ),
        )
      ]

  -- No node is too full, but perhaps the parent.
  pub split-IsSized :
      ((x : ℕ) → x ≢ w → x ≢ p → g.live x ≡ true → IsSized n (before x))
      → (x : ℕ) → x ≢ p
      → (gh dflt n before after g root w c p d h s).live x ≡ true
      → IsSized n (after x)
  split-IsSized sized x x_p alive =
      elim (live_cases dflt n before after g root w c p d h s x alive) [
        | inl e ↦ subst (λ z. IsSized n (after z)) (sym e) halves-IsSized.1
        | inr old ↦ elim (ℕ_discrete x w) [
          | yes e ↦ subst (λ z. IsSized n (after z)) (sym e) halves-IsSized.0
          | no x_w ↦
              let is = same dflt n before after g root w c p d h s x old x_w x_p in
              let leaf = ap (λ (y : Node V). y.is_leaf) is in
              let size = ap (λ (y : Node V). y.vals_size) is in
              elim (sized x x_w x_p old) [
                | inl l ↦ inl (leaf ∙ l.0, omega (arith, l.1, size))
                | inr i ↦ inr (leaf ∙ i.0, omega (arith, i.1, size), omega (arith, i.2, size))
              ]
        ]
      ]

  -- A node that is not of the tree is not touched.
  pub dead_kept : (x : ℕ) → g.live x ≡ false → x ≢ c → after x ≡ before x
  dead_kept x dead x_c =
      let x_w : x ≢ w = λ e. absurd (ground (arith, dead, s.alive, ap g.live e)) in
      let x_p : x ≢ p = λ e. absurd (ground (arith, dead, s.up_alive, ap g.live e)) in
      let parent = s.split.rest_parent x x_w x_c x_p (λ inner i l e.
        let sp = inner_split dflt n before after g root w c p d h s inner in
        let at = inner_at dflt n before after g root w c p d h s inner in
        let child = at.child (n + i) (omega (arith, sp.full)) in
        absurd (ground (arith, dead, child.alive, ap g.live e))) in
      s.split.rest_is x x_w x_c x_p ∙ ap (λ z. record (before x) { parent = z }) parent

-- ===== src/BTree/Shape/Split/Halves.antt =====
-- The children of the two halves of an inner node that `split_node` of include/btree.hpp splits.
use nkvdb.Prelude.{
  ℕ, suc, ◌+◌, ◌-◌, ◌≤◌, ◌<◌, ◌≡◌, ◌≢◌, refl, sym, ap, ◌∙◌, false, arith, dec_lt, ℕ_discrete,
  get_or, List,
}
use nkvdb.BTree.Nodes.{Node}
use nkvdb.BTree.Shape.{Ghost, child_at, key_at, bound, IsChildAt, IsInnerAt}
use nkvdb.BTree.Shape.Split.{IsInnerSplit}
use nkvdb.BTree.Shape.Search.{bound-suc, bound_end, bound_pred}
use nkvdb.BTree.Shape.Split.Facts.{
  Splitting, mid, live-ne-c, child_ne_p, half-lt, inner_at, inner_split, child_injective,
}
use nkvdb.BTree.Shape.Split.Children.{
  g', live_old, new_level, new_lo, new_hi, node_hi, lo_old, level_old, hi_old,
}

module _ {V : Type 0} (dflt : V) (n : ℕ) (before after : ℕ → Node V) (g : Ghost)
    (root w c p d h : ℕ) (s : Splitting dflt n before after g root w c p d h) where
  abbrev ghost : Ghost
  ghost = g' dflt n before after g root w c p d h s

  pub key_kept : (i : ℕ) → key_at dflt (after w) i ≡ key_at dflt (before w) i
  key_kept i = ap (λ (xs : List (ℕ × V)). (get_or xs i (0, dflt)).0) s.split.vals_is

  abbrev m : ℕ
  m = mid dflt n before after g root w c p d h s

  module _ (inner : (before w).is_leaf ≡ false) where
    sp : IsInnerSplit dflt n before after w c p d h
    sp = inner_split dflt n before after g root w c p d h s inner

    at : IsInnerAt dflt before g w
    at = inner_at dflt n before after g root w c p d h s inner

    child_ne_w : (x : ℕ) → suc (g.level x) ≡ g.level w → x ≢ w
    child_ne_w x l e = absurd (omega (arith, l, ap g.level e))

    bound_first :
        (i : ℕ)
        → i ≤ n
        → bound dflt (after w) (g.lo w) m i ≡ bound dflt (before w) (g.lo w) (g.hi w) i
    bound_first i l = elim (ℕ_discrete i 0) [
      | yes z ↦ ground (arith, z)
      | no pos ↦ elim (dec_lt h i) [
        | yes end ↦
            let e : h + 1 ≡ i = omega (arith, sp.half) in
            sym (ap (bound dflt (after w) (g.lo w) m) e)
            ∙ bound_end dflt (after w) (g.lo w) m h (omega (arith, s.split.vals_size_is))
            ∙ sym (
                bound-suc dflt (before w) (g.lo w) (g.hi w) h
                  (half-lt dflt n before after g root w c p d h s))
            ∙ ap (bound dflt (before w) (g.lo w) (g.hi w)) e
        | no l' ↦
            bound_pred dflt (after w) (g.lo w) m i (omega arith)
              (omega (arith, s.split.vals_size_is))
            ∙ key_kept (i - 1)
            ∙ sym (
                bound_pred dflt (before w) (g.lo w) (g.hi w) i (omega arith)
                  (omega (arith, sp.full, sp.half)))
      ]
    ]

    bound_second :
        (i : ℕ)
        → i ≤ n
        → bound dflt (after c) m (g.hi w) i ≡ bound dflt (before w) (g.lo w) (g.hi w) (n + i)
    bound_second i l = elim (ℕ_discrete i 0) [
      | yes z ↦
          let e : n + i ≡ h + 1 = omega (arith, sp.half) in
          ap (bound dflt (after c) m (g.hi w)) z
          ∙ sym (
              bound-suc dflt (before w) (g.lo w) (g.hi w) h
                (half-lt dflt n before after g root w c p d h s))
          ∙ sym (ap (bound dflt (before w) (g.lo w) (g.hi w)) e)
      | no pos ↦ elim (dec_lt h i) [
        | yes end ↦
            let e : h + 1 ≡ i = omega (arith, sp.half) in
            let e' : n + h + 1 ≡ n + i = omega (arith, sp.half) in
            sym (ap (bound dflt (after c) m (g.hi w)) e)
            ∙ bound_end dflt (after c) m (g.hi w) h (omega (arith, s.split.new_vals_size))
            ∙ sym (
                bound_end dflt (before w) (g.lo w) (g.hi w) (n + h)
                  (omega (arith, sp.full, sp.half)))
            ∙ ap (bound dflt (before w) (g.lo w) (g.hi w)) e'
        | no l' ↦
            let e : n + (i - 1) ≡ n + i - 1 = omega arith in
            bound_pred dflt (after c) m (g.hi w) i (omega arith)
              (omega (arith, s.split.new_vals_size))
            ∙ ap (λ (v : ℕ × V). v.0) (s.split.new_val (i - 1) (omega arith))
            ∙ ap (key_at dflt (before w)) e
            ∙ sym (
                bound_pred dflt (before w) (g.lo w) (g.hi w) (n + i) (omega arith)
                  (omega (arith, sp.full, sp.half)))
      ]
    ]

    pub child_first :
        (i : ℕ) → i < n → IsChildAt dflt after (g' dflt n before after g root w c p d h s) w i
    child_first i l =
        let child = at.child i (omega (arith, sp.full)) in
        let x = child_at (before w) i in
        let x_w = child_ne_w x child.level_is in
        let x_c = live-ne-c dflt n before after g root w c p d h s x child.alive in
        let x_p = child_ne_p dflt n before after g root w c p d h s x child.level_is in
        let not_moved =
          λ (q : (before w).is_leaf ≡ false) (j : ℕ) (l' : j < n)
              (e : child_at (before w) (n + j) ≡ x).
            let same =
              child_injective dflt n before after g root w c p d h s w (n + j) i s.alive at
                (omega (arith, sp.full)) (omega (arith, sp.full)) e in
            absurd (omega arith) in
        let is = sp.child i l in
        let lo_x = lo_old dflt n before after g root w c p d h s x child.alive in
        let hi_x = hi_old dflt n before after g root w c p d h s x child.alive x_w in
        let lo_w = lo_old dflt n before after g root w c p d h s w s.alive in
        let hi_w = node_hi dflt n before after g root w c p d h s in
        let is_lo : ghost.lo (child_at (after w) i)
            ≡ bound dflt (after w) (ghost.lo w) (ghost.hi w) i =
          ap ghost.lo is
          ∙ lo_x
          ∙ child.lo_is
          ∙ rw (lo_w, hi_w) (sym (bound_first i (omega arith))) in
        let is_hi : ghost.hi (child_at (after w) i)
            ≡ bound dflt (after w) (ghost.lo w) (ghost.hi w) (i + 1) =
          ap ghost.hi is
          ∙ hi_x
          ∙ child.hi_is
          ∙ rw (lo_w, hi_w) (sym (bound_first (i + 1) (omega arith))) in
        record {
          alive = rw is (live_old dflt n before after g root w c p d h s x child.alive);
          parent_is = rw is (s.split.rest_parent x x_w x_c x_p not_moved ∙ child.parent_is);
          level_is =
              rw
                (
                  is,
                  level_old dflt n before after g root w c p d h s x child.alive,
                  level_old dflt n before after g root w c p d h s w s.alive,
                )
                child.level_is;
          lo_is = is_lo;
          hi_is = is_hi;
        }

    pub child_second :
        (i : ℕ) → i < n → IsChildAt dflt after (g' dflt n before after g root w c p d h s) c i
    child_second i l =
        let child = at.child (n + i) (omega (arith, sp.full)) in
        let x = child_at (before w) (n + i) in
        let x_w = child_ne_w x child.level_is in
        let x_c = live-ne-c dflt n before after g root w c p d h s x child.alive in
        let x_p = child_ne_p dflt n before after g root w c p d h s x child.level_is in
        let is = sp.new_child i l in
        let lo_x = lo_old dflt n before after g root w c p d h s x child.alive in
        let hi_x = hi_old dflt n before after g root w c p d h s x child.alive x_w in
        let lo_c = new_lo dflt n before after g root w c p d h s in
        let hi_c = new_hi dflt n before after g root w c p d h s in
        let e : n + i + 1 ≡ n + (i + 1) = omega arith in
        let is_lo : ghost.lo (child_at (after c) i)
            ≡ bound dflt (after c) (ghost.lo c) (ghost.hi c) i =
          ap ghost.lo is
          ∙ lo_x
          ∙ child.lo_is
          ∙ rw (lo_c, hi_c) (sym (bound_second i (omega arith))) in
        let is_hi : ghost.hi (child_at (after c) i)
            ≡ bound dflt (after c) (ghost.lo c) (ghost.hi c) (i + 1) =
          ap ghost.hi is
          ∙ hi_x
          ∙ child.hi_is
          ∙ rw (lo_c, hi_c)
              (ap (bound dflt (before w) (g.lo w) (g.hi w)) e
                ∙ sym (bound_second (i + 1) (omega arith))) in
        record {
          alive = rw is (live_old dflt n before after g root w c p d h s x child.alive);
          parent_is = rw is (sp.moved i x l refl x_w x_c x_p);
          level_is =
              rw
                (
                  is,
                  level_old dflt n before after g root w c p d h s x child.alive,
                  new_level dflt n before after g root w c p d h s,
                )
                child.level_is;
          lo_is = is_lo;
          hi_is = is_hi;
        }

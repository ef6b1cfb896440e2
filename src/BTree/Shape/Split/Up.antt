-- ===== src/BTree/Shape/Split/Up.antt =====
-- The parent of a node that `split_node` of include/btree.hpp splits.
use nkvdb.Prelude.{ℕ, ◌+◌, ◌-◌, ◌≤◌, ◌<◌, ◌≡◌, ◌≢◌, refl, sym, ap, ◌∙◌, arith, dec_lt, ℕ_discrete}
use mathlib.Core.Path.{subst}
use nkvdb.BTree.Nodes.{Node}
use nkvdb.BTree.Shape.{Ghost, child_at, key_at, bound, IsChildAt}
use nkvdb.BTree.Shape.Search.{bound-suc, bound_end, bound_pred}
use nkvdb.BTree.Shape.Split.Facts.{
  Splitting, mid, live-ne-c, w-ne-p, up_inner, lo_is, hi_is, child_injective,
}
use nkvdb.BTree.Shape.Split.Children.{
  g', live_old, new_level, new_lo, new_hi, node_hi, lo_old, level_old, hi_old, parent_kept,
}

module _ {V : Type 0} (dflt : V) (n : ℕ) (before after : ℕ → Node V) (g : Ghost)
    (root w c p d h : ℕ) (s : Splitting dflt n before after g root w c p d h) where
  abbrev ghost : Ghost
  ghost = g' dflt n before after g root w c p d h s

  abbrev m : ℕ
  m = mid dflt n before after g root w c p d h s

  pub up_key_first : (i : ℕ) → i < d → key_at dflt (after p) i ≡ key_at dflt (before p) i
  up_key_first i l = ground (arith, s.split.up_val i (omega (arith, s.in_range)))

  pub up_key_mid : key_at dflt (after p) d ≡ m
  up_key_mid = ground (arith, s.split.up_val d s.in_range)

  pub up_key_later :
      (i : ℕ)
      → d ≤ i
      → i < (before p).vals_size
      → key_at dflt (after p) (i + 1) ≡ key_at dflt (before p) i
  up_key_later i l l' =
      let e : i + 1 - 1 ≡ i = omega arith in
      let v = s.split.up_val (i + 1) (omega arith) in ground (arith, rw e at v)

  pub up_child_first : (i : ℕ) → i ≤ d → child_at (after p) i ≡ child_at (before p) i
  up_child_first i l =
      let count = (up_inner dflt n before after g root w c p d h s).childs_count in
      ground (arith, s.split.up_child i (omega (arith, s.in_range, count)))

  pub up_child_mid : child_at (after p) (d + 1) ≡ c
  up_child_mid =
      let count = (up_inner dflt n before after g root w c p d h s).childs_count in
      ground (arith, s.split.up_child (d + 1) (omega (arith, s.in_range, count)))

  pub up_child_later :
      (i : ℕ)
      → d < i
      → i ≤ (before p).vals_size
      → child_at (after p) (i + 1) ≡ child_at (before p) i
  up_child_later i l l' =
      let e : i + 1 - 1 ≡ i = omega arith in
      let count = (up_inner dflt n before after g root w c p d h s).childs_count in
      let v = s.split.up_child (i + 1) (omega (arith, count)) in ground (arith, rw e at v)

  abbrev old : ℕ → ℕ
  old = bound dflt (before p) (g.lo p) (g.hi p)

  abbrev now : ℕ → ℕ
  now = bound dflt (after p) (g.lo p) (g.hi p)

  now_first : (i : ℕ) → i ≤ d → now i ≡ old i
  now_first i l = elim (ℕ_discrete i 0) [
    | yes z ↦ ground (arith, z)
    | no pos ↦
        bound_pred dflt (after p) (g.lo p) (g.hi p) i (omega arith)
          (omega (arith, s.split.up_vals_size, s.in_range))
        ∙ up_key_first (i - 1) (omega arith)
        ∙ sym (
            bound_pred dflt (before p) (g.lo p) (g.hi p) i (omega arith)
              (omega (arith, s.in_range)))
  ]

  now_mid : now (d + 1) ≡ m
  now_mid =
      bound-suc dflt (after p) (g.lo p) (g.hi p) d (omega (arith, s.split.up_vals_size, s.in_range))
      ∙ up_key_mid

  now_later : (i : ℕ) → d ≤ i → i ≤ (before p).vals_size → now (i + 1 + 1) ≡ old (i + 1)
  now_later i l l' = elim (dec_lt i (before p).vals_size) [
    | yes lt ↦
        bound-suc dflt (after p) (g.lo p) (g.hi p) (i + 1) (omega (arith, s.split.up_vals_size))
        ∙ up_key_later i l lt
        ∙ sym (bound-suc dflt (before p) (g.lo p) (g.hi p) i lt)
    | no ge ↦
        bound_end dflt (after p) (g.lo p) (g.hi p) (i + 1) (omega (arith, s.split.up_vals_size))
        ∙ sym (bound_end dflt (before p) (g.lo p) (g.hi p) i (omega arith))
  ]

  p_c : p ≢ c
  p_c = live-ne-c dflt n before after g root w c p d h s p s.up_alive

  p_w : p ≢ w
  p_w e = w-ne-p dflt n before after g root w c p d h s (sym e)

  bound_is : (i : ℕ) → bound dflt (after p) (ghost.lo p) (ghost.hi p) i ≡ now i
  bound_is i =
      rw
        (
          lo_old dflt n before after g root w c p d h s p s.up_alive,
          hi_old dflt n before after g root w c p d h s p s.up_alive p_w,
        )
        refl

  -- A child that is not the split node, at its new place.
  other_child :
      (i j : ℕ)
      → i ≢ d
      → i ≤ (before p).vals_size
      → child_at (after p) j ≡ child_at (before p) i
      → now j ≡ old i
      → now (j + 1) ≡ old (i + 1)
      → IsChildAt dflt after (g' dflt n before after g root w c p d h s) p j
  other_child i j i_d l is lo hi =
      let inner = up_inner dflt n before after g root w c p d h s in
      let child = inner.child i l in
      let x = child_at (before p) i in
      let x_w : x ≢ w = λ e. i_d (
        child_injective dflt n before after g root w c p d h s p i d s.up_alive inner l s.in_range
          (e ∙ sym s.is_child)) in
      let kept =
        parent_kept dflt n before after g root w c p d h s x child.alive (rw child.parent_is p_w) in
      let is_lo : ghost.lo (child_at (after p) j)
          ≡ bound dflt (after p) (ghost.lo p) (ghost.hi p) j =
        ap ghost.lo is
        ∙ lo_old dflt n before after g root w c p d h s x child.alive
        ∙ child.lo_is
        ∙ sym (bound_is j ∙ lo) in
      let is_hi : ghost.hi (child_at (after p) j)
          ≡ bound dflt (after p) (ghost.lo p) (ghost.hi p) (j + 1) =
        ap ghost.hi is
        ∙ hi_old dflt n before after g root w c p d h s x child.alive x_w
        ∙ child.hi_is
        ∙ sym (bound_is (j + 1) ∙ hi) in
      record {
        alive = rw is (live_old dflt n before after g root w c p d h s x child.alive);
        parent_is = rw is (kept ∙ child.parent_is);
        level_is =
            rw
              (
                is,
                level_old dflt n before after g root w c p d h s x child.alive,
                level_old dflt n before after g root w c p d h s p s.up_alive,
              )
              child.level_is;
        lo_is = is_lo;
        hi_is = is_hi;
      }

  node_child : IsChildAt dflt after (g' dflt n before after g root w c p d h s) p d
  node_child =
      let inner = up_inner dflt n before after g root w c p d h s in
      let is = up_child_first d (omega arith) ∙ s.is_child in
      let is_lo : ghost.lo (child_at (after p) d)
          ≡ bound dflt (after p) (ghost.lo p) (ghost.hi p) d =
        ap ghost.lo is
        ∙ lo_old dflt n before after g root w c p d h s w s.alive
        ∙ lo_is dflt n before after g root w c p d h s
        ∙ sym (bound_is d ∙ now_first d (omega arith)) in
      let is_hi : ghost.hi (child_at (after p) d)
          ≡ bound dflt (after p) (ghost.lo p) (ghost.hi p) (d + 1) =
        ap ghost.hi is
        ∙ node_hi dflt n before after g root w c p d h s
        ∙ sym (bound_is (d + 1) ∙ now_mid) in
      record {
        alive = rw is (live_old dflt n before after g root w c p d h s w s.alive);
        parent_is = rw is (s.split.parent_is ∙ s.up);
        level_is =
            rw
              (
                is,
                level_old dflt n before after g root w c p d h s w s.alive,
                level_old dflt n before after g root w c p d h s p s.up_alive,
              )
              (sym s.up_level);
        lo_is = is_lo;
        hi_is = is_hi;
      }

  new_child : IsChildAt dflt after (g' dflt n before after g root w c p d h s) p (d + 1)
  new_child =
      let is = up_child_mid in
      let is_lo : ghost.lo (child_at (after p) (d + 1))
          ≡ bound dflt (after p) (ghost.lo p) (ghost.hi p) (d + 1) =
        ap ghost.lo is
        ∙ new_lo dflt n before after g root w c p d h s
        ∙ sym (bound_is (d + 1) ∙ now_mid) in
      let is_hi : ghost.hi (child_at (after p) (d + 1))
          ≡ bound dflt (after p) (ghost.lo p) (ghost.hi p) (d + 1 + 1) =
        ap ghost.hi is
        ∙ new_hi dflt n before after g root w c p d h s
        ∙ hi_is dflt n before after g root w c p d h s
        ∙ sym (bound_is (d + 1 + 1) ∙ now_later d (omega arith) s.in_range) in
      record {
        alive = rw is (ground arith);
        parent_is = rw is s.split.new_parent;
        level_is =
            rw
              (
                is,
                new_level dflt n before after g root w c p d h s,
                level_old dflt n before after g root w c p d h s p s.up_alive,
              )
              (sym s.up_level);
        lo_is = is_lo;
        hi_is = is_hi;
      }

  -- The parent has all its children, and the new node after the split one.
  pub up_children :
      (j : ℕ)
      → j ≤ (before p).vals_size + 1
      → IsChildAt dflt after (g' dflt n before after g root w c p d h s) p j
  up_children j l = elim (ℕ_discrete j d) [
    | yes e ↦ subst (IsChildAt dflt after ghost p) (sym e) node_child
    | no j_d ↦ elim (ℕ_discrete j (d + 1)) [
      | yes e ↦ subst (IsChildAt dflt after ghost p) (sym e) new_child
      | no j_d' ↦ elim (dec_lt j d) [
        | yes lt ↦
            other_child j j j_d (omega (arith, s.in_range)) (up_child_first j (omega arith))
              (now_first j (omega arith)) (now_first (j + 1) (omega arith))
        | no ge ↦
            let i = j - 1 in
            let i' = j - 1 - 1 in
            let e : i + 1 ≡ j = omega arith in
            let e' : i' + 1 ≡ i = omega arith in
            let e'' : i' + 1 + 1 ≡ j = omega arith in
            other_child i j (omega arith) (omega arith)
              (ap (child_at (after p)) (sym e) ∙ up_child_later i (omega arith) (omega arith))
              (ap now (sym e'') ∙ now_later i' (omega arith) (omega arith) ∙ ap old e')
              (sym (ap (λ z. now (z + 1)) e) ∙ now_later i (omega arith) (omega arith))
      ]
    ]
  ]

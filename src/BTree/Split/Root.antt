-- ===== src/BTree/Split/Root.antt =====
-- The new root of `split_node` of include/btree.hpp, taken to stand above the old one before the
-- old one is split.
use nkvdb.Prelude.{
  ℕ, suc, ◌+◌, ◌≤◌, ◌≡◌, ◌≢◌, inl, inr, sym, ap, ◌∙◌, true, arith, ◌==◌, if◌then◌else◌, ℕ_discrete,
  set, word,
}
use nkvdb.BTree.{BTree}
use nkvdb.BTree.Nodes.{Node}
use nkvdb.BTree.Copies.{get_or-set}
use nkvdb.BTree.Shape.{Ghost, child_at, bound, IsChildAt, HasParent, HasNext}
use nkvdb.BTree.Shape.Search.{bound_end}
use nkvdb.BTree.Move.Halves.{IsFresh}
use nkvdb.BTree.Split.{IsOver}

module _ {V : Type 0} (dflt : V) (n : ℕ) (g : Ghost) (t : BTree V) (big : 2 ≤ n)
    (o : IsOver dflt n g t t.root) where
  -- The position that the new root is given, after that of the other half.
  abbrev pub r : ℕ
  r = t.cache_pos + 1

  abbrev w : ℕ
  w = t.root

  abbrev pub root_node : Node V
  root_node = record (t.cache r) { id = r; childs = set (t.cache r).childs 0 w; childs_size = 1 }

  abbrev pub raised : ℕ → Node V
  raised x =
      if x == r then root_node else if x == w then record (t.cache w) { parent = r } else t.cache x

  abbrev pub raised_ghost : Ghost
  raised_ghost = record {
    live = λ x. if x == r then true else g.live x;
    lo = λ x. if x == r then 0 else g.lo x;
    hi = λ x. if x == r then word else g.hi x;
    level = λ x. if x == r then suc (g.level w) else g.level x;
  }

  pub ne_root : (x : ℕ) → g.live x ≡ true → x ≢ r
  ne_root x alive e = absurd (ground (arith, alive, o.free r (omega arith), ap g.live e))

  pub raised_root : raised r ≡ root_node
  raised_root = ground arith

  pub raised-w : raised w ≡ record (t.cache w) { parent = r }
  raised-w = let ne = ne_root w o.alive in ground (arith, ne)

  pub raised_other : (x : ℕ) → x ≢ r → x ≢ w → raised x ≡ t.cache x
  raised_other x x_r x_w = ground (arith, x_r, x_w)

  pub IsFresh-root : IsFresh n (t.cache r)
  IsFresh-root = o.fresh r (omega arith)

  pub live_of : (x : ℕ) → g.live x ≡ true → raised_ghost.live x ≡ true
  live_of x alive = ground (arith, alive)

  pub lo_of : (x : ℕ) → g.live x ≡ true → raised_ghost.lo x ≡ g.lo x
  lo_of x alive = let ne = ne_root x alive in ground (arith, ne)

  pub hi_of : (x : ℕ) → g.live x ≡ true → raised_ghost.hi x ≡ g.hi x
  hi_of x alive = let ne = ne_root x alive in ground (arith, ne)

  pub level_of : (x : ℕ) → g.live x ≡ true → raised_ghost.level x ≡ g.level x
  level_of x alive = let ne = ne_root x alive in ground (arith, ne)

  pub level_root : raised_ghost.level r ≡ suc (g.level w)
  level_root = ground arith

  module _ (x : ℕ) (alive : g.live x ≡ true) where
    hi_old : raised_ghost.hi x ≡ g.hi x
    hi_old = hi_of x alive

    pub same : raised x ≡ record (t.cache x) { parent = (raised x).parent }
    same = elim (ℕ_discrete x w) [
      | yes e ↦
          let is : raised x ≡ record (t.cache x) { parent = r } =
            ap raised e ∙ raised-w ∙ ap (λ z. record (t.cache z) { parent = r }) (sym e) in
          is ∙ ap (λ z. record (t.cache x) { parent = z }) (sym (ap (λ (y : Node V). y.parent) is))
      | no x_w ↦
          let is = raised_other x (ne_root x alive) x_w in
          is ∙ ap (λ z. record (t.cache x) { parent = z }) (sym (ap (λ (y : Node V). y.parent) is))
    ]

    pub next_kept : HasNext dflt t.cache g x → HasNext dflt raised raised_ghost x
    next_kept (inl end) = inl (ap (λ (y : Node V). y.next) same ∙ end.0, hi_old ∙ end.1)
    next_kept (inr to) =
        let z = (t.cache x).next in
        let e = ap (λ (y : Node V). y.next) same in
        inr (
          ap raised_ghost.live e ∙ live_of z to.0,
          ap raised_ghost.lo e ∙ lo_of z to.0 ∙ to.1 ∙ sym hi_old,
          ap raised_ghost.level e ∙ level_of z to.0 ∙ to.2,
        )

  pub child_kept :
      (x i : ℕ)
      → g.live x ≡ true
      → IsChildAt dflt t.cache g x i
      → IsChildAt dflt raised raised_ghost x i
  child_kept x i alive child =
      let y = child_at (t.cache x) i in
      let is : child_at (raised x) i ≡ y = ap (λ (z : Node V). child_at z i) (same x alive) in
      let y_w : y ≢ w = λ e. absurd (
        ground (
          arith,
          alive,
          o.tree.null,
          o.tree.root_top,
          child.parent_is,
          ap (λ z. (t.cache z).parent) e,
        )) in
      let kept = raised_other y (ne_root y child.alive) y_w in
      let bound_is : (j : ℕ)
          → bound dflt (raised x) (raised_ghost.lo x) (raised_ghost.hi x) j
            ≡ bound dflt (t.cache x) (g.lo x) (g.hi x) j =
        λ j.
          rw (lo_of x alive, hi_of x alive)
            (ap (λ (z : Node V). bound dflt z (g.lo x) (g.hi x) j) (same x alive)) in
      record {
        alive = rw is (live_of y child.alive);
        parent_is = rw is (ap (λ (z : Node V). z.parent) kept ∙ child.parent_is);
        level_is = rw (is, level_of y child.alive, level_of x alive) child.level_is;
        lo_is = rw is (lo_of y child.alive ∙ child.lo_is ∙ sym (bound_is i));
        hi_is = rw is (hi_of y child.alive ∙ child.hi_is ∙ sym (bound_is (i + 1)));
      }

  pub first_child : child_at (raised r) 0 ≡ w
  first_child =
      let f = IsFresh-root in
      ap (λ (y : Node V). child_at y 0) raised_root
      ∙ get_or-set (t.cache r).childs 0 0 w 0 (omega (arith, f.childs_long, big))

  pub root_child : IsChildAt dflt raised raised_ghost r 0
  root_child =
      let is = first_child in
      let none_in : (raised r).vals_size ≡ 0 =
        ap (λ (y : Node V). y.vals_size) raised_root ∙ IsFresh-root.no_vals in
      let lo : bound dflt (raised r) (raised_ghost.lo r) (raised_ghost.hi r) 0 ≡ 0 = ground arith in
      let hi : bound dflt (raised r) (raised_ghost.lo r) (raised_ghost.hi r) (0 + 1) ≡ word =
        bound_end dflt (raised r) (raised_ghost.lo r) (raised_ghost.hi r) 0 (omega (arith, none_in))
        ∙ ground arith in
      record {
        alive = rw is (live_of w o.alive);
        parent_is = rw is (ap (λ (z : Node V). z.parent) raised-w);
        level_is = rw (is, level_of w o.alive) (sym level_root);
        lo_is = rw is (lo_of w o.alive ∙ o.tree.root_lo ∙ sym lo);
        hi_is = rw is (hi_of w o.alive ∙ o.tree.root_hi ∙ sym hi);
      }

  pub above_kept : (x : ℕ) → g.live x ≡ true → HasParent dflt raised raised_ghost x
  above_kept x alive = elim (ℕ_discrete x w) [
    | yes e ↦
        let is : (raised x).parent ≡ r =
          ap (λ z. (raised z).parent) e ∙ ap (λ (z : Node V). z.parent) raised-w in
        record {
          alive = ap raised_ghost.live is ∙ ground arith;
          level_is =
              ap raised_ghost.level is
              ∙ level_root
              ∙ sym (ap suc (level_of x alive ∙ ap g.level e));
          place = 0;
          in_range = omega arith;
          is_child = ap (λ z. child_at (raised z) 0) is ∙ first_child ∙ sym e;
        }
    | no x_w ↦ elim (o.tree.node x alive).above [
      | inl top ↦ absurd (x_w top.0)
      | inr up ↦
          let is : (raised x).parent ≡ (t.cache x).parent =
            ap (λ (z : Node V). z.parent) (raised_other x (ne_root x alive) x_w) in
          let y = (t.cache x).parent in
          let at_y = same y up.alive in
          record {
            alive = ap raised_ghost.live is ∙ live_of y up.alive;
            level_is =
                ap raised_ghost.level is
                ∙ level_of y up.alive
                ∙ up.level_is
                ∙ sym (ap suc (level_of x alive));
            place = up.place;
            in_range = omega (
              arith,
              up.in_range,
              ap (λ z. (raised z).vals_size) is,
              ap (λ (z : Node V). z.vals_size) at_y,
            );
            is_child =
                ap (λ z. child_at (raised z) up.place) is
                ∙ ap (λ (z : Node V). child_at z up.place) at_y
                ∙ up.is_child;
          }
    ]
  ]

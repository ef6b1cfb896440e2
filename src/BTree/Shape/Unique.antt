-- ===== src/BTree/Shape/Unique.antt =====
-- The ranges of keys of the nodes of a tree of include/btree.hpp, one beside another.
use nkvdb.Prelude.{
  ℕ, zero, suc, ◌+◌, ◌-◌, ◌≤◌, ◌<◌, ◌≡◌, sym, ap, ◌∙◌, inl, inr, true, arith, dec_lt, ℕ_discrete,
}
use nkvdb.BTree.Nodes.{Node}
use nkvdb.BTree.Shape.{Ghost, child_at, key_at, bound, IsInnerAt, HasParent, IsNodeAt, IsTree}
use nkvdb.BTree.Shape.Search.{bound-suc, bound_end, bound_pred}

module _ {V : Type 0} (dflt : V) (n : ℕ) (cache : ℕ → Node V) (g : Ghost) (root : ℕ) where
  -- The ranges of the children of a node follow one another.
  bound_step :
      (x i : ℕ)
      → IsNodeAt dflt cache g n root x
      → IsInnerAt dflt cache g x
      → i ≤ (cache x).vals_size
      → bound dflt (cache x) (g.lo x) (g.hi x) i ≤ bound dflt (cache x) (g.lo x) (g.hi x) (i + 1)
  bound_step x i node inner h =
      let suc_is = bound-suc dflt (cache x) (g.lo x) (g.hi x) i in
      let end_is = bound_end dflt (cache x) (g.lo x) (g.hi x) i in
      let pred_is = bound_pred dflt (cache x) (g.lo x) (g.hi x) i in
      elim (ℕ_discrete i 0) [
        | yes z ↦ elim (dec_lt i (cache x).vals_size) [
          | yes l ↦ ground (arith, z, suc_is l, inner.from_lo i l)
          | no l ↦ ground (arith, z, end_is (omega arith), node.some_key)
        ]
        | no z ↦ elim (dec_lt i (cache x).vals_size) [
          | yes l ↦
              omega
                (arith, suc_is l, pred_is (omega arith) h, node.sorted (i - 1) i (omega arith) l)
          | no l ↦ omega (
            arith,
            end_is (omega arith),
            pred_is (omega arith) h,
            node.below_hi (i - 1) (omega arith),
          )
        ]
      ]

  pub bound-le :
      (x i d : ℕ)
      → IsNodeAt dflt cache g n root x
      → IsInnerAt dflt cache g x
      → i + d ≤ (cache x).vals_size + 1
      → bound dflt (cache x) (g.lo x) (g.hi x) i ≤ bound dflt (cache x) (g.lo x) (g.hi x) (i + d)
  bound-le x i zero node inner h =
      let e : i + 0 ≡ i = omega arith in
      omega (arith, ap (bound dflt (cache x) (g.lo x) (g.hi x)) e)
  bound-le x i (suc d) node inner h =
      let e : i + suc d ≡ i + d + 1 = omega arith in
      omega (
        arith,
        bound-le x i d node inner (omega arith),
        bound_step x (i + d) node inner (omega arith),
        ap (bound dflt (cache x) (g.lo x) (g.hi x)) e,
      )

  -- The keys of a node before the place of a child are not above the child's, those after it are.
  pub keys_before :
      (x i d : ℕ)
      → IsNodeAt dflt cache g n root x
      → IsInnerAt dflt cache g x
      → d ≤ (cache x).vals_size
      → i < d
      → key_at dflt (cache x) i ≤ g.lo (child_at (cache x) d)
  keys_before x i d node inner h l =
      let e : i + 1 + (d - (i + 1)) ≡ d = omega arith in
      omega (
        arith,
        bound-le x (i + 1) (d - (i + 1)) node inner (omega arith),
        ap (bound dflt (cache x) (g.lo x) (g.hi x)) e,
        bound-suc dflt (cache x) (g.lo x) (g.hi x) i (omega arith),
        (inner.child d h).lo_is,
      )

  pub keys_after :
      (x i d : ℕ)
      → IsNodeAt dflt cache g n root x
      → IsInnerAt dflt cache g x
      → d ≤ i
      → i < (cache x).vals_size
      → g.hi (child_at (cache x) d) ≤ key_at dflt (cache x) i
  keys_after x i d node inner h l =
      let e : d + 1 + (i - d) ≡ i + 1 = omega arith in
      omega (
        arith,
        bound-le x (d + 1) (i - d) node inner (omega arith),
        ap (bound dflt (cache x) (g.lo x) (g.hi x)) e,
        bound-suc dflt (cache x) (g.lo x) (g.hi x) i l,
        (inner.child d (omega arith)).hi_is,
      )

  -- Children of one node to which one key belongs are one child.
  pub place_unique :
      (x i j k : ℕ)
      → IsNodeAt dflt cache g n root x
      → IsInnerAt dflt cache g x
      → i ≤ (cache x).vals_size
      → j ≤ (cache x).vals_size
      → bound dflt (cache x) (g.lo x) (g.hi x) i ≤ k
      → k < bound dflt (cache x) (g.lo x) (g.hi x) (i + 1)
      → bound dflt (cache x) (g.lo x) (g.hi x) j ≤ k
      → k < bound dflt (cache x) (g.lo x) (g.hi x) (j + 1)
      → i ≡ j
  place_unique x i j k node inner li lj a b c d =
      let b' = bound dflt (cache x) (g.lo x) (g.hi x) in
      elim (dec_lt i j) [
        | yes l ↦
            let e : i + 1 + (j - (i + 1)) ≡ j = omega arith in
            absurd
              (omega (arith, bound-le x (i + 1) (j - (i + 1)) node inner (omega arith), ap b' e))
        | no l ↦ elim (dec_lt j i) [
          | yes l' ↦
              let e : j + 1 + (i - (j + 1)) ≡ i = omega arith in
              absurd
                (omega (arith, bound-le x (j + 1) (i - (j + 1)) node inner (omega arith), ap b' e))
          | no l' ↦ omega arith
        ]
      ]

  module _ (tree : IsTree dflt cache g n root) where
    pub inner_of : (x : ℕ) → g.live x ≡ true → 0 < g.level x → IsInnerAt dflt cache g x
    inner_of x alive pos = elim (tree.node x alive).kind [
      | inl f ↦ absurd (omega (arith, f.level_is))
      | inr i ↦ i
    ]

    -- A node below the root's height is a child.
    parent_of : (x : ℕ) → g.live x ≡ true → g.level x < g.level root → HasParent dflt cache g x
    parent_of x alive l = elim (tree.node x alive).above [
      | inl r ↦ absurd (omega (arith, ap g.level (r.0)))
      | inr p ↦ p
    ]

    root_of : (x : ℕ) → g.live x ≡ true → g.level x ≡ g.level root → x ≡ root
    root_of x alive l = elim (tree.node x alive).above [
      | inl r ↦ r.0
      | inr p ↦ absurd (omega (arith, p.level_is, tree.deep (cache x).parent p.alive))
    ]

    -- A key of a node stands with its parent between the bounds of the node's place.
    record HasPlace (x p k : ℕ) : Type 0 where
      place : ℕ
      alive : g.live p ≡ true
      inner : IsInnerAt dflt cache g p
      level_is : g.level p ≡ suc (g.level x)
      in_range : place ≤ (cache p).vals_size
      is_child : child_at (cache p) place ≡ x
      from : bound dflt (cache p) (g.lo p) (g.hi p) place ≤ k
      below : k < bound dflt (cache p) (g.lo p) (g.hi p) (place + 1)
      from_lo : g.lo p ≤ k
      below_hi : k < g.hi p

    one_place : (x y p k : ℕ) → HasPlace x p k → HasPlace y p k → x ≡ y
    one_place x y p k a b =
        let same =
          place_unique p a.place b.place k (tree.node p a.alive) a.inner a.in_range b.in_range
            a.from a.below b.from b.below in
        sym a.is_child ∙ ap (child_at (cache p)) same ∙ b.is_child

    parent-HasPlace :
        (x k : ℕ)
        → g.live x ≡ true
        → g.level x < g.level root
        → g.lo x ≤ k
        → k < g.hi x
        → HasPlace x (cache x).parent k
    parent-HasPlace x k alive l from below =
        let up = parent_of x alive l in
        let p = (cache x).parent in
        let inner = inner_of p up.alive (omega (arith, up.level_is)) in
        let i = up.place in
        let child = inner.child i up.in_range in
        let from' : bound dflt (cache p) (g.lo p) (g.hi p) i ≤ k =
          omega (arith, child.lo_is, ap g.lo up.is_child) in
        let below' : k < bound dflt (cache p) (g.lo p) (g.hi p) (i + 1) =
          omega (arith, child.hi_is, ap g.hi up.is_child) in
        let node = tree.node p up.alive in
        let b' = bound dflt (cache p) (g.lo p) (g.hi p) in
        let first : b' 0 ≤ b' (0 + i) = bound-le p 0 i node inner (omega (arith, up.in_range)) in
        let rest = (cache p).vals_size + 1 - (i + 1) in
        let last : b' (i + 1) ≤ b' (i + 1 + rest) =
          bound-le p (i + 1) rest node inner (omega (arith, up.in_range)) in
        let e : i + 1 + rest ≡ (cache p).vals_size + 1 = omega (arith, up.in_range) in
        let end = bound_end dflt (cache p) (g.lo p) (g.hi p) (cache p).vals_size (omega arith) in
        let e' : 0 + i ≡ i = omega arith in
        record {
          place = i;
          alive = up.alive;
          inner = inner;
          level_is = up.level_is;
          in_range = up.in_range;
          is_child = up.is_child;
          from = from';
          below = below';
          from_lo = omega (arith, first, from', ap b' e');
          below_hi = omega (arith, last, below', ap b' e, end);
        }

    -- Of the nodes at one height, a key belongs to one.
    pub live_unique :
        (d x y k : ℕ)
        → g.live x ≡ true
        → g.live y ≡ true
        → g.level x + d ≡ g.level root
        → g.level y ≡ g.level x
        → g.lo x ≤ k
        → k < g.hi x
        → g.lo y ≤ k
        → k < g.hi y
        → x ≡ y
    live_unique zero x y k ax ay e same a b c d =
        root_of x ax (omega arith) ∙ sym (root_of y ay (omega arith))
    live_unique (suc d) x y k ax ay e same a b c b' =
        let p = parent-HasPlace x k ax (omega arith) a b in
        let q = parent-HasPlace y k ay (omega arith) c b' in
        let r =
          live_unique d (cache x).parent (cache y).parent k p.alive q.alive
            (omega (arith, p.level_is)) (omega (arith, p.level_is, q.level_is)) p.from_lo p.below_hi
            q.from_lo q.below_hi in
        one_place x y (cache x).parent k p (rw r q)

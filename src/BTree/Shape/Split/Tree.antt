-- ===== src/BTree/Shape/Split/Tree.antt =====
-- The tree after `split_node` of include/btree.hpp has put a new node beside a full one.
use nkvdb.Prelude.{
  ℕ, ◌+◌, ◌-◌, ◌≤◌, ◌<◌, ◌≡◌, ◌≢◌, sym, ap, ◌∙◌, ◌⊎◌, inl, inr, true, arith, dec_lt, ℕ_discrete,
}
use mathlib.Core.Path.{subst}
use nkvdb.BTree.Nodes.{Node}
use nkvdb.BTree.Shape.{Ghost, key_at, bound, IsNodeAt, IsTree}
use nkvdb.BTree.Shape.Search.{bound_end}
use nkvdb.BTree.Shape.Unique.{bound-le}
use nkvdb.BTree.Shape.Split.Facts.{
  Splitting, mid, w-ne-p, up_inner, up_node, lo-lt-mid, mid-lt-hi, lo_is, hi_is, up_key_before,
  up_key_after,
}
use nkvdb.BTree.Shape.Split.Children.{lo_old, level_old, hi_old, live_old, new_level, parent_kept}
use nkvdb.BTree.Shape.Split.Up.{up_children, up_key_first, up_key_mid, up_key_later}
use nkvdb.BTree.Shape.Split.Rest.{above, node_kept}
use nkvdb.BTree.Shape.Split.Parts.{ghost, first_node, second_node}

module _ {V : Type 0} (dflt : V) (n : ℕ) (before after : ℕ → Node V) (g : Ghost)
    (root w c p d h : ℕ) (s : Splitting dflt n before after g root w c p d h) where
  abbrev m : ℕ
  m = mid dflt n before after g root w c p d h s

  abbrev pub gh : Ghost
  gh = ghost dflt n before after g root w c p d h s

  abbrev old_up : IsNodeAt dflt before g n root p
  old_up = up_node dflt n before after g root w c p d h s

  -- The keys of the parent are its old ones, the middle key among them.
  data UpKey (i k : ℕ) : Type 0 where
    before_mid : i < d → k ≡ key_at dflt (before p) i → UpKey i k
    at_mid : i ≡ d → k ≡ m → UpKey i k
    after_mid : d < i → k ≡ key_at dflt (before p) (i - 1) → UpKey i k

  up_key : (i : ℕ) → i ≤ (before p).vals_size → UpKey i (key_at dflt (after p) i)
  up_key i l = elim (dec_lt i d) [
    | yes lt ↦ before_mid lt (up_key_first dflt n before after g root w c p d h s i lt)
    | no ge ↦ elim (ℕ_discrete i d) [
      | yes e ↦
          at_mid e
            (ap (key_at dflt (after p)) e ∙ up_key_mid dflt n before after g root w c p d h s)
      | no ne ↦
          let e : i - 1 + 1 ≡ i = omega arith in
          let later =
            up_key_later dflt n before after g root w c p d h s (i - 1) (omega arith)
              (omega arith) in
          after_mid (omega arith) (sym (ap (key_at dflt (after p)) e) ∙ later)
    ]
  ]

  key_before : (i : ℕ) → i < d → key_at dflt (before p) i < m
  key_before = up_key_before dflt n before after g root w c p d h s

  key_after : (i : ℕ) → d ≤ i → i < (before p).vals_size → m < key_at dflt (before p) i
  key_after = up_key_after dflt n before after g root w c p d h s

  UpKey-lt : (i j k k' : ℕ) → i < j → j ≤ (before p).vals_size → UpKey i k → UpKey j k' → k < k'
  UpKey-lt i j k k' l q (before_mid a e) (before_mid b e') =
      omega (arith, e, e', old_up.sorted i j l (omega (arith, s.in_range)))
  UpKey-lt i j k k' l q (before_mid a e) (at_mid b e') = omega (arith, e, e', key_before i a)
  UpKey-lt i j k k' l q (before_mid a e) (after_mid b e') =
      omega (arith, e, e', key_before i a, key_after (j - 1) (omega arith) (omega arith))
  UpKey-lt i j k k' l q (at_mid a e) (after_mid b e') =
      omega (arith, e, e', key_after (j - 1) (omega arith) (omega arith))
  UpKey-lt i j k k' l q (after_mid a e) (after_mid b e') =
      omega (arith, e, e', old_up.sorted (i - 1) (j - 1) (omega arith) (omega arith))
  UpKey-lt i j k k' l q (at_mid a e) (before_mid b e') = absurd (omega arith)
  UpKey-lt i j k k' l q (at_mid a e) (at_mid b e') = absurd (omega arith)
  UpKey-lt i j k k' l q (after_mid a e) (before_mid b e') = absurd (omega arith)
  UpKey-lt i j k k' l q (after_mid a e) (at_mid b e') = absurd (omega arith)

  mid-lt-up : m < g.hi p
  mid-lt-up =
      let b = bound dflt (before p) (g.lo p) (g.hi p) in
      let rest = (before p).vals_size - d in
      let inner = up_inner dflt n before after g root w c p d h s in
      let le =
        bound-le dflt n before g root p (d + 1) rest old_up inner (omega (arith, s.in_range)) in
      let e : d + 1 + rest ≡ (before p).vals_size + 1 = omega (arith, s.in_range) in
      omega (
        arith,
        le,
        ap b e,
        bound_end dflt (before p) (g.lo p) (g.hi p) (before p).vals_size (omega arith),
        hi_is dflt n before after g root w c p d h s,
        mid-lt-hi dflt n before after g root w c p d h s,
      )

  up-lt-mid : g.lo p < m
  up-lt-mid =
      let inner = up_inner dflt n before after g root w c p d h s in
      let e : 0 + d ≡ d = omega arith in
      let le = bound-le dflt n before g root p 0 d old_up inner (omega (arith, s.in_range)) in
      omega (
        arith,
        le,
        ap (bound dflt (before p) (g.lo p) (g.hi p)) e,
        lo_is dflt n before after g root w c p d h s,
        lo-lt-mid dflt n before after g root w c p d h s,
      )

  UpKey-inside : (i k : ℕ) → i ≤ (before p).vals_size → UpKey i k → (g.lo p < k) × (k < g.hi p)
  UpKey-inside i k l (before_mid a e) =
      let l' : i < (before p).vals_size = omega (arith, s.in_range) in
      let from = (up_inner dflt n before after g root w c p d h s).from_lo i l' in
      (omega (arith, from, e), omega (arith, old_up.below_hi i l', e))
  UpKey-inside i k l (at_mid a e) = (omega (arith, up-lt-mid, e), omega (arith, mid-lt-up, e))
  UpKey-inside i k l (after_mid a e) =
      let l' : i - 1 < (before p).vals_size = omega arith in
      let from = (up_inner dflt n before after g root w c p d h s).from_lo (i - 1) l' in
      (omega (arith, from, e), omega (arith, old_up.below_hi (i - 1) l', e))

  up_node' : IsNodeAt dflt after gh n root p
  up_node' =
      let p_w : p ≢ w = λ e. w-ne-p dflt n before after g root w c p d h s (sym e) in
      let lo = lo_old dflt n before after g root w c p d h s p s.up_alive in
      let hi = hi_old dflt n before after g root w c p d h s p s.up_alive p_w in
      let inner = up_inner dflt n before after g root w c p d h s in
      let size = s.split.up_vals_size in
      let inside : (i : ℕ)
          → i < (after p).vals_size
          → (g.lo p < key_at dflt (after p) i) × (key_at dflt (after p) i < g.hi p) =
        λ i q. UpKey-inside i _ (omega (arith, size)) (up_key i (omega (arith, size))) in
      record {
        id_is = s.split.up_id ∙ old_up.id_is;
        vals_long = s.split.up_vals_long;
        childs_long = s.split.up_childs_long;
        some_key = omega (arith, lo, hi, old_up.some_key);
        below_hi = λ i q. omega (arith, hi, (inside i q).1);
        sorted = λ i j q r.
            UpKey-lt i j _ _ q (omega (arith, size)) (up_key i (omega (arith, size)))
              (up_key j (omega (arith, size)));
        kind = inr (record {
          inner = s.split.up_is_leaf ∙ inner.inner;
          childs_count = omega (arith, s.split.up_childs_size, inner.childs_count, size);
          from_lo = λ i q. omega (arith, lo, (inside i q).0);
          child = λ i q. up_children dflt n before after g root w c p d h s i (omega (arith, size));
        });
        above = above dflt n before after g root w c p d h s p s.up_alive;
      }

  pub live_cases : (x : ℕ) → gh.live x ≡ true → (x ≡ c) ⊎ (g.live x ≡ true)
  live_cases x alive = elim (ℕ_discrete x c) [
    | yes e ↦ inl e
    | no ne ↦ inr (ground (arith, alive, ne))
  ]

  node' : (x : ℕ) → gh.live x ≡ true → IsNodeAt dflt after gh n root x
  node' x alive = elim (live_cases x alive) [
    | inl e ↦
        subst (IsNodeAt dflt after gh n root) (sym e)
          (second_node dflt n before after g root w c p d h s)
    | inr old ↦ elim (ℕ_discrete x w) [
      | yes e ↦
          subst (IsNodeAt dflt after gh n root) (sym e)
            (first_node dflt n before after g root w c p d h s)
      | no x_w ↦ elim (ℕ_discrete x p) [
        | yes e ↦ subst (IsNodeAt dflt after gh n root) (sym e) up_node'
        | no x_p ↦ node_kept dflt n before after g root w c p d h s x old x_w x_p
      ]
    ]
  ]

  deep' : (x : ℕ) → gh.live x ≡ true → gh.level x ≤ gh.level root
  deep' x alive =
      let top = level_old dflt n before after g root w c p d h s root s.tree.root_live in
      elim (live_cases x alive) [
        | inl e ↦ omega (
          arith,
          ap gh.level e,
          new_level dflt n before after g root w c p d h s,
          top,
          s.tree.deep w s.alive,
        )
        | inr old ↦
            omega (
              arith,
              level_old dflt n before after g root w c p d h s x old,
              top,
              s.tree.deep x old,
            )
      ]

  root_w : root ≢ w
  root_w e = absurd (ground (arith, s.tree.root_top, s.up, s.up_alive, s.tree.null, e))

  pub tree' : IsTree dflt after gh n root
  tree' =
      let live = s.tree.root_live in
      let c_pos = s.new_pos in
      let no = s.tree.null in
      let kept =
        parent_kept dflt n before after g root w c p d h s root live
          (λ e. absurd (ground (arith, s.tree.root_top, e, s.alive, no))) in
      record {
        null = ground (arith, no, c_pos);
        root_live = live_old dflt n before after g root w c p d h s root live;
        root_lo = lo_old dflt n before after g root w c p d h s root live ∙ s.tree.root_lo;
        root_hi = hi_old dflt n before after g root w c p d h s root live root_w ∙ s.tree.root_hi;
        root_top = kept ∙ s.tree.root_top;
        deep = deep';
        node = node';
      }

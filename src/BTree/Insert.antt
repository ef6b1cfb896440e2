-- ===== src/BTree/Insert.antt =====
-- A value put into a leaf of a tree of include/btree.hpp.
pub mod Leaf
pub mod Stored
pub mod Whole
pub mod New
pub mod Many
use nkvdb.Prelude.{
  ℕ, zero, suc, ◌+◌, ◌-◌, ◌*◌, ◌≤◌, ◌<◌, ◌≡◌, ◌≢◌, ◌⊎◌, inl, inr, refl, sym, ap, ◌∙◌, true, false,
  arith, ltb, ◌==◌, if◌then◌else◌, dec_lt, ℕ_discrete, length,
}
use mathlib.Core.Path.{subst}
use nkvdb.BTree.{BTree, put}
use nkvdb.BTree.Array.{insert_to_array, length-insert_to_array}
use nkvdb.BTree.Nodes.{Node, val_at, insert_value}
use nkvdb.BTree.Move.{put_at, put_other}
use nkvdb.BTree.Move.Up.{BelongsAt, with_value, insert_value_is, with_value_at}
use nkvdb.BTree.Shape.{
  Ghost, child_at, key_at, bound, IsTree, IsInnerAt, IsLeafAt, IsNodeAt, IsChildAt, HasParent,
  HasNext, Has,
}
use nkvdb.BTree.Shape.Unique.{inner_of}

module _ {V : Type 0} (dflt : V) (n key : ℕ) (val : V) (w d : ℕ) (g : Ghost) (t : BTree V) where
  -- The key is new, and belongs to the leaf `w` at the place `d`.
  pub record Inserting : Type 0 where
    pub tree : IsTree dflt t.cache g n t.root
    pub alive : g.live w ≡ true
    pub leaf : (t.cache w).is_leaf ≡ true
    pub belongs : BelongsAt dflt n key val (t.cache w) d
    pub from : g.lo w ≤ key
    pub below : key < g.hi w

  abbrev pub inserted : BTree V
  inserted = put w (insert_value dflt key val (t.cache w)) t

  module _ (s : Inserting) where
    pub at_w : inserted.cache w ≡ with_value dflt n key val (t.cache w) d s.belongs
    at_w =
        put_at dflt n w w (insert_value dflt key val (t.cache w)) t refl
        ∙ insert_value_is dflt n key val (t.cache w) d s.belongs

    pub at_other : (x : ℕ) → x ≢ w → inserted.cache x ≡ t.cache x
    at_other x ne = put_other dflt n x w (insert_value dflt key val (t.cache w)) t ne

    -- Nothing but values changes.
    pub shape_same :
        (x : ℕ)
        → inserted.cache x ≡ record (t.cache x) {
          vals = (inserted.cache x).vals;
          vals_size = (inserted.cache x).vals_size;
        }
    shape_same x = elim (ℕ_discrete x w) [
      | yes e ↦
          subst
            (λ z. inserted.cache z ≡ record (t.cache z) {
              vals = (inserted.cache z).vals;
              vals_size = (inserted.cache z).vals_size;
            })
            (sym e) same_w
      | no ne ↦ same_other x (at_other x ne)
    ]
      where
        same_w : inserted.cache w ≡ record (t.cache w) {
          vals = (inserted.cache w).vals;
          vals_size = (inserted.cache w).vals_size;
        }
        same_w =
            at_w
            ∙ ap (λ (y : Node V). record (t.cache w) { vals = y.vals; vals_size = y.vals_size })
                (sym at_w)

        same_other :
            (x : ℕ)
            → inserted.cache x ≡ t.cache x
            → inserted.cache x ≡ record (t.cache x) {
              vals = (inserted.cache x).vals;
              vals_size = (inserted.cache x).vals_size;
            }
        same_other x e =
            e
            ∙ ap (λ (y : Node V). record (t.cache x) { vals = y.vals; vals_size = y.vals_size })
                (sym e)

    pub parent_same : (x : ℕ) → (inserted.cache x).parent ≡ (t.cache x).parent
    parent_same x = ap (λ (y : Node V). y.parent) (shape_same x)

    pub inner_same : (x : ℕ) → (t.cache x).is_leaf ≡ false → inserted.cache x ≡ t.cache x
    inner_same x inner =
        at_other x (λ e. absurd (ground (arith, s.leaf, inner, ap (λ z. (t.cache z).is_leaf) e)))

    pub child_kept :
        (x i : ℕ)
        → (t.cache x).is_leaf ≡ false
        → IsChildAt dflt t.cache g x i
        → IsChildAt dflt inserted.cache g x i
    child_kept x i inner child =
        let y = child_at (t.cache x) i in
        let is : child_at (inserted.cache x) i ≡ y =
          ap (λ (z : Node V). child_at z i) (inner_same x inner) in
        let bound_is : (j : ℕ)
            → bound dflt (inserted.cache x) (g.lo x) (g.hi x) j
              ≡ bound dflt (t.cache x) (g.lo x) (g.hi x) j =
          λ j. ap (λ (z : Node V). bound dflt z (g.lo x) (g.hi x) j) (inner_same x inner) in
        record {
          alive = ap g.live is ∙ child.alive;
          parent_is = ap (λ z. (inserted.cache z).parent) is ∙ parent_same y ∙ child.parent_is;
          level_is = ap (λ z. suc (g.level z)) is ∙ child.level_is;
          lo_is = ap g.lo is ∙ child.lo_is ∙ sym (bound_is i);
          hi_is = ap g.hi is ∙ child.hi_is ∙ sym (bound_is (i + 1));
        }

    pub above_kept :
        (x : ℕ)
        → ((x ≡ t.root) × ((t.cache x).parent ≡ 0)) ⊎ HasParent dflt t.cache g x
        → ((x ≡ t.root) × ((inserted.cache x).parent ≡ 0)) ⊎ HasParent dflt inserted.cache g x
    above_kept x (inl top) = inl (top.0, parent_same x ∙ top.1)
    above_kept x (inr up) =
        let is = parent_same x in
        let y = (t.cache x).parent in
        let inner =
          (inner_of dflt n t.cache g t.root s.tree y up.alive (omega (arith, up.level_is))).inner in
        let same = inner_same y inner in
        inr (record {
          alive = ap g.live is ∙ up.alive;
          level_is = ap g.level is ∙ up.level_is;
          place = up.place;
          in_range = omega (
            arith,
            up.in_range,
            ap (λ z. (inserted.cache z).vals_size) is,
            ap (λ (z : Node V). z.vals_size) same,
          );
          is_child =
              ap (λ z. child_at (inserted.cache z) up.place) is
              ∙ ap (λ (z : Node V). child_at z up.place) same
              ∙ up.is_child;
        })

    pub next_kept : (x : ℕ) → HasNext dflt t.cache g x → HasNext dflt inserted.cache g x
    next_kept x (inl end) = inl (ap (λ (y : Node V). y.next) (shape_same x) ∙ end.0, end.1)
    next_kept x (inr to) =
        let e = ap (λ (y : Node V). y.next) (shape_same x) in
        inr (ap g.live e ∙ to.0, ap g.lo e ∙ to.1, ap g.level e ∙ to.2)

    pub other_node :
        (x : ℕ)
        → x ≢ w
        → IsNodeAt dflt t.cache g n t.root x
        → IsNodeAt dflt inserted.cache g n t.root x
    other_node x ne node =
        let is = at_other x ne in
        let key_same : (i : ℕ) → key_at dflt (inserted.cache x) i ≡ key_at dflt (t.cache x) i =
          λ i. ap (λ (y : Node V). key_at dflt y i) is in
        let size = ap (λ (y : Node V). y.vals_size) is in
        record {
          id_is = ap (λ (y : Node V). y.id) is ∙ node.id_is;
          vals_long = ap (λ (y : Node V). length y.vals) is ∙ node.vals_long;
          childs_long = ap (λ (y : Node V). length y.childs) is ∙ node.childs_long;
          some_key = node.some_key;
          below_hi = λ i q. omega (arith, node.below_hi i (omega (arith, size)), key_same i);
          sorted = λ i j q r.
              omega (arith, node.sorted i j q (omega (arith, size)), key_same i, key_same j);
          kind = elim node.kind [
            | inl l ↦ inl (record {
              leaf = ap (λ (y : Node V). y.is_leaf) is ∙ l.leaf;
              childless = ap (λ (y : Node V). y.childs_size) is ∙ l.childless;
              level_is = l.level_is;
              from_lo = λ i q. omega (arith, l.from_lo i (omega (arith, size)), key_same i);
              next_is = next_kept x l.next_is;
            })
            | inr k ↦ inr (record {
              inner = ap (λ (y : Node V). y.is_leaf) is ∙ k.inner;
              childs_count =
                  omega (arith, ap (λ (y : Node V). y.childs_size) is, k.childs_count, size);
              from_lo = λ i q. omega (arith, k.from_lo i (omega (arith, size)), key_same i);
              child = λ i q. child_kept x i k.inner (k.child i (omega (arith, size)));
            })
          ];
          above = above_kept x node.above;
        }

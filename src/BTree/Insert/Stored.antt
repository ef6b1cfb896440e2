-- ===== src/BTree/Insert/Stored.antt =====
-- What a tree of include/btree.hpp stores when a leaf has been given a value.
use nkvdb.Prelude.{
  ℕ, ◌+◌, ◌-◌, ◌≤◌, ◌<◌, ◌≡◌, ◌⊎◌, inl, inr, sym, ap, ◌∙◌, true, arith, ltb, ◌==◌, if◌then◌else◌,
  dec_lt, ℕ_discrete,
}
use mathlib.Core.Path.{subst}
use nkvdb.BTree.{BTree}
use nkvdb.BTree.Nodes.{Node, val_at}
use nkvdb.BTree.Move.Up.{with_value_at}
use nkvdb.BTree.Shape.{Ghost, Has}
use nkvdb.BTree.Insert.Leaf.{before_new, at_new, after_new, leaf_val, key_of, size_is}
use nkvdb.BTree.Insert.{Inserting, inserted, at_w, at_other, shape_same}

module _ {V : Type 0} (dflt : V) (n key : ℕ) (val : V) (w d : ℕ) (g : Ghost) (t : BTree V)
    (s : Inserting dflt n key val w d g t) where
  abbrev now : BTree V
  now = inserted dflt n key val w d g t

  abbrev old : Node V
  old = t.cache w

  size_now : (now.cache w).vals_size ≡ (t.cache w).vals_size + 1
  size_now = size_is dflt n key val w d g t s

  leaf_is : (now.cache w).is_leaf ≡ true
  leaf_is = ap (λ (y : Node V). y.is_leaf) (shape_same dflt n key val w d g t s w) ∙ s.leaf

  val_of :
      (i : ℕ)
      → i ≤ (t.cache w).vals_size
      → val_at dflt (now.cache w) i ≡ (
          if i == d
          then (key, val)
          else if ltb d i
          then val_at dflt (t.cache w) (i - 1)
          else val_at dflt (t.cache w) i)
  val_of i l =
      ap (λ (y : Node V). val_at dflt y i) (at_w dflt n key val w d g t s)
      ∙ with_value_at dflt n key val (t.cache w) d s.belongs i l

  -- The value is stored.
  pub Has-inserted : Has dflt (inserted dflt n key val w d g t).cache g key val
  Has-inserted =
      let v = val_of d s.belongs.in_range in
      record {
        leaf = w;
        alive = s.alive;
        is_leaf = leaf_is;
        place = d;
        in_range = omega (arith, size_now, s.belongs.in_range);
        val_is = ground (arith, v);
      }

  -- So are those that were.
  pub Has-kept :
      (k : ℕ) (v : V)
      → Has dflt t.cache g k v
      → Has dflt (inserted dflt n key val w d g t).cache g k v
  Has-kept k v has = elim (ℕ_discrete has.leaf w) [
    | no ne ↦
        let is = at_other dflt n key val w d g t s has.leaf ne in
        record {
          leaf = has.leaf;
          alive = has.alive;
          is_leaf = ap (λ (y : Node V). y.is_leaf) is ∙ has.is_leaf;
          place = has.place;
          in_range = omega (arith, has.in_range, ap (λ (y : Node V). y.vals_size) is);
          val_is = ap (λ (y : Node V). val_at dflt y has.place) is ∙ has.val_is;
        }
    | yes e ↦ in_leaf has.place (rw (← e) has.in_range) (rw (← e) has.val_is)
  ]
    where
      in_leaf :
          (i : ℕ)
          → i < (t.cache w).vals_size
          → val_at dflt (t.cache w) i ≡ (k, v)
          → Has dflt now.cache g k v
      in_leaf i l is = elim (dec_lt i d) [
        | yes lt ↦
            let at = val_of i (omega arith) in
            record {
              leaf = w;
              alive = s.alive;
              is_leaf = leaf_is;
              place = i;
              in_range = omega (arith, size_now);
              val_is = ground (arith, at, lt, is);
            }
        | no ge ↦
            let e : i + 1 - 1 ≡ i = omega arith in
            let at = val_of (i + 1) (omega arith) in
            record {
              leaf = w;
              alive = s.alive;
              is_leaf = leaf_is;
              place = i + 1;
              in_range = omega (arith, size_now);
              val_is = ground (arith, rw e at at, ge, is);
            }
      ]

  -- And no others.
  pub Has-old :
      (k : ℕ) (v : V)
      → Has dflt (inserted dflt n key val w d g t).cache g k v
      → Has dflt t.cache g k v ⊎ ((k ≡ key) × (v ≡ val))
  Has-old k v has = elim (ℕ_discrete has.leaf w) [
    | no ne ↦
        let is = at_other dflt n key val w d g t s has.leaf ne in
        inl (record {
          leaf = has.leaf;
          alive = has.alive;
          is_leaf = sym (ap (λ (y : Node V). y.is_leaf) is) ∙ has.is_leaf;
          place = has.place;
          in_range = omega (arith, has.in_range, ap (λ (y : Node V). y.vals_size) is);
          val_is = sym (ap (λ (y : Node V). val_at dflt y has.place) is) ∙ has.val_is;
        })
    | yes e ↦
        from_leaf has.place (subst (λ z. has.place < (now.cache z).vals_size) e has.in_range)
          (subst (λ z. val_at dflt (now.cache z) has.place ≡ (k, v)) e has.val_is)
  ]
    where
      old_val :
          (i : ℕ)
          → i < (t.cache w).vals_size
          → val_at dflt (t.cache w) i ≡ (k, v)
          → Has dflt t.cache g k v
      old_val i l is = record {
        leaf = w;
        alive = s.alive;
        is_leaf = s.leaf;
        place = i;
        in_range = l;
        val_is = is;
      }

      from_leaf :
          (i : ℕ)
          → i < (now.cache w).vals_size
          → val_at dflt (now.cache w) i ≡ (k, v)
          → Has dflt t.cache g k v ⊎ ((k ≡ key) × (v ≡ val))
      from_leaf i l is = elim (leaf_val dflt n key val w d g t s i (omega (arith, size_now))) [
        | before_new a e ↦ inl (old_val i (omega (arith, s.belongs.in_range)) (sym e ∙ is))
        | at_new a e ↦
            let q = sym is ∙ e in inr (key_of dflt n key val w d g t s q, ap (λ (z : ℕ × V). z.1) q)
        | after_new a e ↦ inl (old_val (i - 1) (omega (arith, size_now)) (sym e ∙ is))
      ]

-- ===== src/BTree/Shape/Split/Stored.antt =====
-- `split_node` of include/btree.hpp and the values that the leaves store.
use nkvdb.Prelude.{
  ℕ, ◌+◌, ◌-◌, ◌<◌, ◌≡◌, ◌≢◌, sym, ap, ◌∙◌, inl, inr, true, arith, dec_lt, ℕ_discrete, List, get_or,
}
use nkvdb.BTree.Nodes.{Node, val_at}
use nkvdb.BTree.Shape.{Ghost, Has}
use nkvdb.BTree.Shape.Split.Facts.{Splitting, up_inner, leaf_split}
use nkvdb.BTree.Shape.Split.Children.{live_old, same}
use nkvdb.BTree.Shape.Split.Parts.{new_live}
use nkvdb.BTree.Shape.Split.Tree.{gh, live_cases}

module _ {V : Type 0} (dflt : V) (n : ℕ) (before after : ℕ → Node V) (g : Ghost)
    (root w c p d h : ℕ) (s : Splitting dflt n before after g root w c p d h) where
  ghost : Ghost
  ghost = gh dflt n before after g root w c p d h s

  leaf-ne-up : (x : ℕ) → (before x).is_leaf ≡ true → x ≢ p
  leaf-ne-up x leaf e = absurd (
      ground (
        arith,
        leaf,
        (up_inner dflt n before after g root w c p d h s).inner,
        ap (λ y. (before y).is_leaf) e,
      ))

  val_kept : (i : ℕ) → val_at dflt (after w) i ≡ val_at dflt (before w) i
  val_kept i = ap (λ (xs : List (ℕ × V)). get_or xs i (0, dflt)) s.split.vals_is

  in_halves :
      (i key : ℕ) (val : V)
      → (before w).is_leaf ≡ true
      → i < (before w).vals_size
      → val_at dflt (before w) i ≡ (key, val)
      → Has dflt after (gh dflt n before after g root w c p d h s) key val
  in_halves i key val leaf l is =
      let sp = leaf_split dflt n before after g root w c p d h s leaf in
      elim (dec_lt i n) [
        | yes first ↦ record {
          leaf = w;
          alive = live_old dflt n before after g root w c p d h s w s.alive;
          is_leaf = sp.leaf';
          place = i;
          in_range = omega (arith, s.split.vals_size_is, sp.half);
          val_is = val_kept i ∙ is;
        }
        | no second ↦
            let e : n + (i - n) ≡ i = omega arith in
            record {
              leaf = c;
              alive = new_live dflt n before after g root w c p d h s;
              is_leaf = sp.new_leaf;
              place = i - n;
              in_range = omega (arith, s.split.new_vals_size, sp.half, sp.full);
              val_is =
                  s.split.new_val (i - n) (omega (arith, sp.half, sp.full))
                  ∙ ap (val_at dflt (before w)) e
                  ∙ is;
            }
      ]

  pub Has-split :
      (key : ℕ) (val : V)
      → Has dflt before g key val
      → Has dflt after (gh dflt n before after g root w c p d h s) key val
  Has-split key val has = elim (ℕ_discrete has.leaf w) [
    | yes e ↦
        in_halves has.place key val (sym (ap (λ y. (before y).is_leaf) e) ∙ has.is_leaf)
          (rw (← e) has.in_range) (rw (← e) has.val_is)
    | no x_w ↦
        let is =
          same dflt n before after g root w c p d h s has.leaf has.alive x_w
            (leaf-ne-up has.leaf has.is_leaf) in
        record {
          leaf = has.leaf;
          alive = live_old dflt n before after g root w c p d h s has.leaf has.alive;
          is_leaf = ap (λ (node : Node V). node.is_leaf) is ∙ has.is_leaf;
          place = has.place;
          in_range = omega (arith, has.in_range, ap (λ (node : Node V). node.vals_size) is);
          val_is = ap (λ (node : Node V). val_at dflt node has.place) is ∙ has.val_is;
        }
  ]

  pub Has-unsplit :
      (key : ℕ) (val : V)
      → Has dflt after (gh dflt n before after g root w c p d h s) key val
      → Has dflt before g key val
  Has-unsplit key val has =
      elim (live_cases dflt n before after g root w c p d h s has.leaf has.alive) [
        | inl e ↦
            from_second has.place key val (rw (← e) has.is_leaf) (rw (← e) has.in_range)
              (rw (← e) has.val_is)
        | inr old ↦ elim (ℕ_discrete has.leaf w) [
          | yes e ↦
              from_first has.place key val (rw (← e) has.is_leaf) (rw (← e) has.in_range)
                (rw (← e) has.val_is)
          | no x_w ↦ elim (ℕ_discrete has.leaf p) [
            | yes e ↦ absurd (
                ground (
                  arith,
                  (up_inner dflt n before after g root w c p d h s).inner,
                  s.split.up_is_leaf,
                  has.is_leaf,
                  ap (λ y. (after y).is_leaf) e,
                ))
            | no x_p ↦
                let is = same dflt n before after g root w c p d h s has.leaf old x_w x_p in
                record {
                  leaf = has.leaf;
                  alive = old;
                  is_leaf = sym (ap (λ (node : Node V). node.is_leaf) is) ∙ has.is_leaf;
                  place = has.place;
                  in_range = omega (arith, has.in_range, ap (λ (node : Node V). node.vals_size) is);
                  val_is = sym (ap (λ (node : Node V). val_at dflt node has.place) is) ∙ has.val_is;
                }
          ]
        ]
      ]
    where
      from_first :
          (i key : ℕ) (val : V)
          → (after w).is_leaf ≡ true
          → i < (after w).vals_size
          → val_at dflt (after w) i ≡ (key, val)
          → Has dflt before g key val
      from_first i key val leaf l is = elim s.split.kind [
        | inl sp ↦ record {
          leaf = w;
          alive = s.alive;
          is_leaf = sp.leaf;
          place = i;
          in_range = omega (arith, s.split.vals_size_is, sp.half, sp.full);
          val_is = sym (val_kept i) ∙ is;
        }
        | inr sp ↦ absurd (ground (arith, leaf, sp.inner'))
      ]

      from_second :
          (i key : ℕ) (val : V)
          → (after c).is_leaf ≡ true
          → i < (after c).vals_size
          → val_at dflt (after c) i ≡ (key, val)
          → Has dflt before g key val
      from_second i key val leaf l is = elim s.split.kind [
        | inl sp ↦ record {
          leaf = w;
          alive = s.alive;
          is_leaf = sp.leaf;
          place = n + i;
          in_range = omega (arith, s.split.new_vals_size, sp.half, sp.full);
          val_is = sym (s.split.new_val i (omega (arith, s.split.new_vals_size))) ∙ is;
        }
        | inr sp ↦ absurd (ground (arith, leaf, sp.new_inner))
      ]

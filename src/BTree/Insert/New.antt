-- ===== src/BTree/Insert/New.antt =====
-- The tree of include/btree.hpp in a new file: one leaf without values.
use nkvdb.Prelude.{
  ℕ, ◌*◌, ◌<◌, ◌≡◌, ◌≢◌, inl, refl, sym, ap, ◌∙◌, true, arith, ◌==◌, length, word, length-replicate,
}
use mathlib.Core.Path.{subst}
use nkvdb.BTree.{BTree, init_cache, zero_node}
use nkvdb.BTree.Nodes.{Node}
use nkvdb.BTree.Shape.{Ghost, Has, IsNodeAt, IsSized}
use nkvdb.BTree.Move.Halves.{IsFresh}
use nkvdb.BTree.Split.{IsGood}

-- All keys belong to the leaf at position 1.
abbrev pub new_ghost : Ghost
new_ghost = record { live = λ x. x == 1; lo = λ x. 0; hi = λ x. word; level = λ x. 0 }

module _ {V : Type 0} (dflt : V) (n : ℕ) (some_room : 0 < n) (size : ℕ) where
  -- What the constructor is given for a new file.
  abbrev pub new_tree : BTree V
  new_tree = record { cache = init_cache dflt n; cache_size = size; cache_pos = 2; root = 1 }

  at_root : init_cache dflt n 1 ≡ record (zero_node dflt n) { is_leaf = true; id = 1 }
  unfolding init_cache
  at_root = refl

  at_other : (x : ℕ) → x ≢ 1 → init_cache dflt n x ≡ zero_node dflt n
  unfolding init_cache
  at_other x ne = ground (arith, ne)

  only_root : (x : ℕ) → new_ghost.live x ≡ true → x ≡ 1
  only_root x alive = ground (arith, alive)

  no_vals : (init_cache dflt n 1).vals_size ≡ 0
  no_vals = ap (λ (y : Node V). y.vals_size) at_root

  root_node : IsNodeAt dflt (init_cache dflt n) new_ghost n 1 1
  root_node =
      let none_in = no_vals in
      record {
        id_is = ap (λ (y : Node V). y.id) at_root;
        vals_long = ap (λ (y : Node V). length y.vals) at_root ∙ length-replicate (n * 2) (0, dflt);
        childs_long = ap (λ (y : Node V). length y.childs) at_root ∙ length-replicate (n * 2) 0;
        some_key = omega arith;
        below_hi = λ i l. absurd (omega (arith, none_in));
        sorted = λ i j l l'. absurd (omega (arith, none_in));
        kind = inl (record {
          leaf = ap (λ (y : Node V). y.is_leaf) at_root;
          childless = ap (λ (y : Node V). y.childs_size) at_root;
          level_is = refl;
          from_lo = λ i l. omega arith;
          next_is = inl (ap (λ (y : Node V). y.next) at_root, refl);
        });
        above = inl (refl, ap (λ (y : Node V). y.parent) at_root);
      }

  pub new_tree-IsGood :
      IsGood dflt n new_ghost
        (record { cache = init_cache dflt n; cache_size = size; cache_pos = 2; root = 1 })
  new_tree-IsGood = record {
    tree = record {
      null = refl;
      root_live = refl;
      root_lo = refl;
      root_hi = refl;
      root_top = ap (λ (y : Node V). y.parent) at_root;
      deep = λ x alive. omega arith;
      node = λ x alive.
          subst (IsNodeAt dflt (init_cache dflt n) new_ghost n 1) (sym (only_root x alive))
            root_node;
    };
    sized = λ x alive.
        subst (λ z. IsSized n (init_cache dflt n z)) (sym (only_root x alive))
          (inl (ap (λ (y : Node V). y.is_leaf) at_root, omega (arith, no_vals, some_room)));
    fresh = λ x l. subst (IsFresh n) (sym (at_other x (λ e. absurd (omega arith)))) zero_fresh;
    free = λ x l. ground (arith, l);
    pos = omega arith;
  }
    where
      zero_fresh : IsFresh n (zero_node dflt n)
      zero_fresh = record {
        no_vals = refl;
        no_childs = refl;
        no_parent = refl;
        not_leaf = refl;
        vals_long = length-replicate (n * 2) (0, dflt);
        childs_long = length-replicate (n * 2) 0;
      }

  pub new_tree_empty : (key : ℕ) (val : V) → Has dflt (init_cache dflt n) new_ghost key val → ⊥
  new_tree_empty key val has = omega (
    arith,
    has.in_range,
    no_vals,
    ap (λ x. (init_cache dflt n x).vals_size) (only_root has.leaf has.alive),
  )

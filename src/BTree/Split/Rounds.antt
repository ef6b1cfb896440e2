-- ===== src/BTree/Split/Rounds.antt =====
-- `split_node` of include/btree.hpp, round by round up the tree.
use nkvdb.Prelude.{
  ℕ, zero, suc, ◌+◌, ◌-◌, ◌/◌, ◌≤◌, ◌<◌, ◌≡◌, inl, inr, refl, sym, ap, ◌∙◌, true, false, arith,
}
use mathlib.Core.Path.{subst}
use nkvdb.Prelude.Result.{Result, ok}
use nkvdb.BTree.{BTree, make_node, move_half, insert_to_parent, split_node}
use nkvdb.BTree.Nodes.{val_at, is_full}
use nkvdb.BTree.Shape.{Ghost, Has}
use nkvdb.BTree.Shape.Split.Children.{level_old}
use nkvdb.BTree.Shape.Split.Tree.{gh}
use nkvdb.BTree.Shape.Split.Stored.{Has-split, Has-unsplit}
use nkvdb.BTree.Split.{IsOver, IsGood}
use nkvdb.BTree.Split.Start.{made, make_node-made, half}
use nkvdb.BTree.Split.Step.{after, insert_to_parent-after, round-Splitting}
use nkvdb.BTree.Split.Root.{raised, raised_ghost, level_root}
use nkvdb.BTree.Split.Raised.{root_empty, Has-raised, Has-unraised}
use nkvdb.BTree.Split.Top.{move_half-root, move_half-pos}
use nkvdb.BTree.Split.Ready.{after_round, up_after, top_after}
use nkvdb.BTree.Split.Crown.{crowned, insert_to_parent-crowned, crowned-state, crown-Splitting}

module _ {V : Type 0} (dflt : V) (n : ℕ) where
  -- What `split_node` comes to: a tree again, with the values that were stored.
  pub record Outcome (g : Ghost) (t : BTree V) (spare : ℕ) (result : Result (BTree V))
      : Type 0 where
    pub ghost : Ghost
    pub state : BTree V
    pub result_is : result ≡ ok state
    pub good : IsGood dflt n ghost state
    pub used : state.cache_pos ≤ t.cache_pos + spare
    pub size_same : state.cache_size ≡ t.cache_size
    pub height : ghost.level state.root ≤ suc (g.level t.root)
    pub kept : (key : ℕ) (val : V) → Has dflt t.cache g key val → Has dflt state.cache ghost key val
    pub no_more :
        (key : ℕ) (val : V) → Has dflt state.cache ghost key val → Has dflt t.cache g key val

  module _ (fuel w c p : ℕ) (t m after : BTree V) (made : make_node dflt n t ≡ ok (c, m))
      (up : insert_to_parent dflt n w c
          (val_at dflt (m.cache w) ((m.cache w).vals_size / 2))
          (move_half dflt n w c m)
        ≡ ok (p, after)) where
    split_to : split_node dflt n (suc fuel) w t ≡ elim (is_full n (after.cache p)) [
      | true ↦ split_node dflt n fuel p after
      | false ↦ ok after
    ]
    unfolding split_node
    split_to = rw (made, up) refl

    split_on :
        is_full n (after.cache p) ≡ true
        → split_node dflt n (suc fuel) w t ≡ split_node dflt n fuel p after
    split_on full =
        split_to
        ∙ ap (λ b. elim b [ true ↦ split_node dflt n fuel p after | false ↦ ok after ]) full

    split_done : is_full n (after.cache p) ≡ false → split_node dflt n (suc fuel) w t ≡ ok after
    split_done full =
        split_to
        ∙ ap (λ b. elim b [ true ↦ split_node dflt n fuel p after | false ↦ ok after ]) full

  top-Outcome :
      (d fuel : ℕ) (g : Ghost) (t : BTree V) (big : 2 ≤ n) (o : IsOver dflt n g t t.root)
      → t.cache_pos + 1 ≤ t.cache_size
      → Outcome g t (d + 2) (split_node dflt n (suc fuel) t.root t)
  top-Outcome d fuel g t big o room =
      let T = crowned dflt n g t big o in
      let s = crown-Splitting dflt n g t big o in
      let b = raised dflt n g t big o in
      let gr = raised_ghost dflt n g t big o in
      let p = t.cache_pos + 1 in
      let h = half dflt n g t t.root big o in
      let made = make_node-made dflt n g t t.root big o (omega arith) in
      let up = insert_to_parent-crowned dflt n g t big o room in
      elim (after_round dflt n _ T p (top_after dflt n g t big o)) [
        | inl full ↦
            let one = s.split.up_vals_size in
            let empty = root_empty dflt n g t big o in
            absurd (elim full.1.full [
              | inl f ↦ omega (arith, f.1, one, empty, big)
              | inr f ↦ omega (arith, f.1, one, empty, big)
            ])
        | inr done ↦ record {
          ghost = gh dflt n b T.cache gr p t.root t.cache_pos p 0 h s;
          state = T;
          result_is = split_done fuel t.root t.cache_pos p t _ T made up done.0;
          good = done.1;
          used = omega (arith, (crowned-state dflt n g t big o).1);
          size_same = (crowned-state dflt n g t big o).2;
          height = omega (
            arith,
            ap (gh dflt n b T.cache gr p t.root t.cache_pos p 0 h s).level
                (crowned-state dflt n g t big o).0,
            level_old dflt n b T.cache gr p t.root t.cache_pos p 0 h s p s.up_alive,
            level_root dflt n g t big o,
          );
          kept = λ key val has.
              Has-split dflt n b T.cache gr p t.root t.cache_pos p 0 h s key val
                (Has-raised dflt n g t big o key val has);
          no_more = λ key val has.
              Has-unraised dflt n g t big o key val
                (Has-unsplit dflt n b T.cache gr p t.root t.cache_pos p 0 h s key val has);
        }
      ]

  -- With fuel for the height over the node and room for its new nodes, the splitting of the one node
  -- that is too full, and of those that it overfills, makes a tree of nodes that are not, and moves
  -- the stored values without losing or adding any.
  pub split_node-Outcome :
      (d fuel w : ℕ) (g : Ghost) (t : BTree V)
      → 2 ≤ n
      → IsOver dflt n g t w
      → g.level w + d ≡ g.level t.root
      → d < fuel
      → t.cache_pos + d + 2 ≤ t.cache_size
      → Outcome g t (d + 2) (split_node dflt n fuel w t)
  split_node-Outcome d zero w g t big o level enough room = absurd (omega arith)
  split_node-Outcome d (suc fuel) w g t big o level enough room =
      elim (o.tree.node w o.alive).above [
        | inl top ↦
            let o' = subst (IsOver dflt n g t) top.0 o in
            subst (λ z. Outcome g t (d + 2) (split_node dflt n (suc fuel) z t)) (sym top.0)
              (top-Outcome d fuel g t big o' (omega (arith, room)))
        | inr up ↦
            let T = after dflt n g t w big o up in
            let s = round-Splitting dflt n g t w big o up in
            let p = (t.cache w).parent in
            let h = half dflt n g t w big o in
            let m = made dflt n g t w big o in
            let make = make_node-made dflt n g t w big o (omega (arith, room)) in
            let went_up = insert_to_parent-after dflt n g t w big o up in
            let keeps = Has-split dflt n t.cache T.cache g t.root w t.cache_pos p up.place h s in
            let adds_none =
              Has-unsplit dflt n t.cache T.cache g t.root w t.cache_pos p up.place h s in
            let gT = gh dflt n t.cache T.cache g t.root w t.cache_pos p up.place h s in
            let pos = move_half-pos dflt n w t.cache_pos m in
            let level_top =
              ap gT.level (move_half-root dflt n w t.cache_pos m)
              ∙ level_old dflt n t.cache T.cache g t.root w t.cache_pos p up.place h s t.root
                  o.tree.root_live in
            elim (after_round dflt n gT T p (up_after dflt n g t w big o up)) [
              | inr done ↦ record {
                ghost = gT;
                state = T;
                result_is = split_done fuel w t.cache_pos p t m T make went_up done.0;
                good = done.1;
                used = omega (arith, pos.0);
                size_same = pos.1;
                height = omega (arith, level_top);
                kept = keeps;
                no_more = adds_none;
              }
              | inl full ↦
                  let level_p =
                    level_old dflt n t.cache T.cache g t.root w t.cache_pos p up.place h s p
                      up.alive in
                  let below = o.tree.deep p up.alive in
                  let d_pos : 0 < d = omega (arith, up.level_is, below) in
                  let rest =
                    split_node-Outcome (d - 1) fuel p gT T big full.1
                      (omega (arith, level_p, level_top, up.level_is)) (omega arith)
                      (omega (arith, pos.0, pos.1, room)) in
                  record {
                    ghost = rest.ghost;
                    state = rest.state;
                    result_is =
                        split_on fuel w t.cache_pos p t m T make went_up full.0 ∙ rest.result_is;
                    good = rest.good;
                    used = omega (arith, rest.used, pos.0, d_pos);
                    size_same = rest.size_same ∙ pos.1;
                    height = omega (arith, rest.height, level_top);
                    kept = λ key val has. rest.kept key val (keeps key val has);
                    no_more = λ key val has. adds_none key val (rest.no_more key val has);
                  }
            ]
      ]

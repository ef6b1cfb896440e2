-- ===== src/BTree/Split/Ready.antt =====
-- What one round of `split_node` of include/btree.hpp leaves to be done.
use nkvdb.Prelude.{
  ℕ, ◌+◌, ◌*◌, ◌≤◌, ◌<◌, ◌≡◌, ◌≢◌, ◌⊎◌, inl, inr, sym, ap, ◌∙◌, true, false, arith, ℕ_discrete,
  dec_lt,
}
use mathlib.Core.Path.{subst}
use nkvdb.BTree.{BTree}
use nkvdb.BTree.Nodes.{Node, is_full}
use nkvdb.BTree.Shape.{Ghost, HasParent, IsTree, IsSized}
use nkvdb.BTree.Shape.Split.Facts.{Splitting, up_inner}
use nkvdb.BTree.Shape.Split.Children.{live_old}
use nkvdb.BTree.Shape.Split.Tree.{gh, tree'}
use nkvdb.BTree.Shape.Split.Sizes.{split-IsSized, dead_kept}
use nkvdb.BTree.Move.Halves.{IsFresh}
use nkvdb.BTree.Split.{IsOver, IsGood}
use nkvdb.BTree.Split.Start.{made, half}
use nkvdb.BTree.Split.Step.{after, up_sized, round-Splitting}
use nkvdb.BTree.Split.Root.{raised, raised_ghost, raised_other}
use nkvdb.BTree.Split.Raised.{root_empty}
use nkvdb.BTree.Split.Top.{move_half-root, move_half-pos}
use nkvdb.BTree.Split.Crown.{crowned, crowned-state, crown-Splitting}

module _ {V : Type 0} (dflt : V) (n : ℕ) where
  -- After a splitting, the parent is full or there is nothing left to do.
  pub record AfterSplit (g : Ghost) (t : BTree V) (p : ℕ) : Type 0 where
    pub tree : IsTree dflt t.cache g n t.root
    pub alive : g.live p ≡ true
    pub inner : (t.cache p).is_leaf ≡ false
    pub some_val : 0 < (t.cache p).vals_size
    pub most : (t.cache p).vals_size + 1 ≤ n * 2
    pub sized : (x : ℕ) → x ≢ p → g.live x ≡ true → IsSized n (t.cache x)
    pub fresh : (x : ℕ) → t.cache_pos ≤ x → IsFresh n (t.cache x)
    pub free : (x : ℕ) → t.cache_pos ≤ x → g.live x ≡ false
    pub pos : 0 < t.cache_pos

  pub after_round :
      (g : Ghost) (t : BTree V) (p : ℕ)
      → AfterSplit g t p
      → ((is_full n (t.cache p) ≡ true) × IsOver dflt n g t p)
        ⊎ ((is_full n (t.cache p) ≡ false) × IsGood dflt n g t)
  unfolding is_full
  after_round g t p a =
      let most = a.most in
      elim (dec_lt ((t.cache p).vals_size + 1) (n * 2)) [
        | yes l ↦ inr (
          ground (arith, l),
          record {
            tree = a.tree;
            sized = λ x alive. elim (ℕ_discrete x p) [
              | yes e ↦ subst (λ z. IsSized n (t.cache z)) (sym e) (inr (a.inner, a.some_val, l))
              | no ne ↦ a.sized x ne alive
            ];
            fresh = a.fresh;
            free = a.free;
            pos = a.pos;
          },
        )
        | no l ↦ inl (
          ground (arith, l),
          record {
            tree = a.tree;
            alive = a.alive;
            full = inr (a.inner, omega arith);
            sized = a.sized;
            fresh = a.fresh;
            free = a.free;
            pos = a.pos;
          },
        )
      ]

  module _ (before : ℕ → Node V) (g : Ghost) (root w c p d h : ℕ) (t : BTree V)
      (s : Splitting dflt n before t.cache g root w c p d h) where
    -- Where nothing but the split node was too full, and the free nodes were new.
    split_after :
        (root_is : t.root ≡ root)
        → (most : (before p).vals_size + 1 < n * 2)
        → ((x : ℕ) → x ≢ w → x ≢ p → g.live x ≡ true → IsSized n (before x))
        → (past : (x : ℕ) → t.cache_pos ≤ x → (g.live x ≡ false) × (x ≢ c) × IsFresh n (before x))
        → 0 < t.cache_pos
        → AfterSplit (gh dflt n before t.cache g root w c p d h s) t p
    split_after root_is most sized past pos =
        let inner = up_inner dflt n before t.cache g root w c p d h s in
        record {
          tree =
              subst (IsTree dflt t.cache (gh dflt n before t.cache g root w c p d h s) n)
                (sym root_is) (tree' dflt n before t.cache g root w c p d h s);
          alive = live_old dflt n before t.cache g root w c p d h s p s.up_alive;
          inner = s.split.up_is_leaf ∙ inner.inner;
          some_val = omega (arith, s.split.up_vals_size);
          most = omega (arith, s.split.up_vals_size, most);
          sized = split-IsSized dflt n before t.cache g root w c p d h s sized;
          fresh = λ x l.
              subst (IsFresh n)
                (sym
                  (dead_kept dflt n before t.cache g root w c p d h s x (past x l).0 (past x l).1))
                (past x l).2;
          free =
              λ x l. let dead = (past x l).0 in let ne = (past x l).1 in ground (arith, dead, ne);
          pos = pos;
        }

  -- The round on a node with a parent.
  pub up_after :
      (g : Ghost) (t : BTree V) (w : ℕ) (big : 2 ≤ n) (o : IsOver dflt n g t w)
      (up : HasParent dflt t.cache g w)
      → AfterSplit
          (gh dflt n t.cache
            (after dflt n g t w big o up).cache
            g
            t.root
            w
            t.cache_pos
            (t.cache w).parent
            up.place
            (half dflt n g t w big o)
            (round-Splitting dflt n g t w big o up))
          (after dflt n g t w big o up)
          (t.cache w).parent
  up_after g t w big o up =
      let T = after dflt n g t w big o up in
      let m = made dflt n g t w big o in
      let root_is = move_half-root dflt n w t.cache_pos m in
      let pos = move_half-pos dflt n w t.cache_pos m in
      split_after t.cache g t.root w t.cache_pos (t.cache w).parent up.place
        (half dflt n g t w big o) T (round-Splitting dflt n g t w big o up) root_is
        (up_sized dflt n g t w big o up) (λ x x_w x_p alive. o.sized x x_w alive)
        (λ x l. past x (omega (arith, l, pos.0))) (omega (arith, pos.0))
    where
      past :
          (x : ℕ)
          → t.cache_pos + 1 ≤ x
          → (g.live x ≡ false) × (x ≢ t.cache_pos) × IsFresh n (t.cache x)
      past x l = (o.free x (omega arith), λ e. absurd (omega arith), o.fresh x (omega arith))

  -- The round on the root.
  pub top_after :
      (g : Ghost) (t : BTree V) (big : 2 ≤ n) (o : IsOver dflt n g t t.root)
      → AfterSplit
          (gh dflt n
            (raised dflt n g t big o)
            (crowned dflt n g t big o).cache
            (raised_ghost dflt n g t big o)
            (t.cache_pos + 1)
            t.root
            t.cache_pos
            (t.cache_pos + 1)
            0
            (half dflt n g t t.root big o)
            (crown-Splitting dflt n g t big o))
          (crowned dflt n g t big o)
          (t.cache_pos + 1)
  top_after g t big o =
      let T = crowned dflt n g t big o in
      let empty = root_empty dflt n g t big o in
      let state = crowned-state dflt n g t big o in
      split_after (raised dflt n g t big o) (raised_ghost dflt n g t big o) (t.cache_pos + 1) t.root
        t.cache_pos (t.cache_pos + 1) 0 (half dflt n g t t.root big o) T
        (crown-Splitting dflt n g t big o) state.0 (omega (arith, empty, big)) sized
        (λ x l. past x (omega (arith, l, state.1))) (omega (arith, state.1))
    where
      sized :
          (x : ℕ)
          → x ≢ t.root
          → x ≢ t.cache_pos + 1
          → (raised_ghost dflt n g t big o).live x ≡ true
          → IsSized n (raised dflt n g t big o x)
      sized x x_w x_p alive =
          subst (IsSized n) (sym (raised_other dflt n g t big o x x_p x_w))
            (o.sized x x_w (ground (arith, alive, x_p)))

      past :
          (x : ℕ)
          → t.cache_pos + 2 ≤ x
          → ((raised_ghost dflt n g t big o).live x ≡ false)
            × (x ≢ t.cache_pos)
            × IsFresh n (raised dflt n g t big o x)
      past x l =
          let dead = o.free x (omega arith) in
          let x_p : x ≢ t.cache_pos + 1 = λ e. absurd (omega arith) in
          let x_w : x ≢ t.root = λ e. absurd (ground (arith, dead, o.alive, ap g.live e)) in
          (
            ground (arith, dead, x_p),
            λ e. absurd (omega arith),
            subst (IsFresh n) (sym (raised_other dflt n g t big o x x_p x_w))
                (o.fresh x (omega arith)),
          )

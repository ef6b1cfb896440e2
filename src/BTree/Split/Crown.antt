-- ===== src/BTree/Split/Crown.antt =====
-- The round of `split_node` of include/btree.hpp on the root, as one on a child of the new root.
use nkvdb.Prelude.{
  ℕ, suc, ◌+◌, ◌/◌, ◌≤◌, ◌≡◌, ◌≢◌, inl, inr, sym, ap, ◌∙◌, arith, length, set, length-set,
}
use mathlib.Core.Path.{subst}
use nkvdb.Prelude.Result.{ok}
use nkvdb.BTree.{BTree, move_half, insert_to_parent, add_root}
use nkvdb.BTree.Array.{insert_to_array, insert_to_array_last}
use nkvdb.BTree.Nodes.{Node, val_at}
use nkvdb.BTree.Shape.{Ghost, child_at}
use nkvdb.BTree.Shape.Split.Facts.{Splitting}
use nkvdb.BTree.Move.Halves.{IsFresh, IsMoved}
use nkvdb.BTree.Move.Join.{IsJoined, joined-IsSplit}
use nkvdb.BTree.Split.{IsOver}
use nkvdb.BTree.Split.Start.{made, made_old, made_w, ne_new, half, half_moved}
use nkvdb.BTree.Split.Root.{
  raised, raised_ghost, ne_root, raised_root, raised-w, raised_other, IsFresh-root, live_of,
  level_of, level_root, first_child,
}
use nkvdb.BTree.Split.Raised.{raised-IsTree, root_empty}
use nkvdb.BTree.Split.Top.{
  move_half-root, move_half-pos, rooted, insert_to_parent_top, add_root-state, top_w, top_c,
  top_other, top_r,
}

module _ {V : Type 0} (dflt : V) (n : ℕ) (g : Ghost) (t : BTree V) (big : 2 ≤ n)
    (o : IsOver dflt n g t t.root) where
  abbrev w : ℕ
  w = t.root

  abbrev c' : ℕ
  c' = t.cache_pos

  abbrev p : ℕ
  p = t.cache_pos + 1

  abbrev m : BTree V
  m = made dflt n g t w big o

  abbrev h : ℕ
  h = half dflt n g t w big o

  abbrev moved : BTree V
  moved = move_half dflt n w c' m

  abbrev mid : ℕ × V
  mid = val_at dflt (t.cache w) h

  -- The nodes after the round.
  abbrev pub crowned : BTree V
  crowned = add_root dflt n w c' mid p (rooted dflt n w c' p mid moved)

  abbrev before : ℕ → Node V
  before = raised dflt n g t big o

  moves : IsMoved dflt n m.cache moved.cache w c' h
  moves = half_moved dflt n g t w big o

  w_c : w ≢ c'
  w_c = ne_new dflt n g t w big o w o.alive

  w_p : w ≢ p
  w_p = ne_root dflt n g t big o w o.alive

  c_p : c' ≢ p
  c_p e = absurd (omega arith)

  p_c : p ≢ c'
  p_c e = absurd (omega arith)

  at_w : m.cache w ≡ t.cache w
  at_w = made_w dflt n g t w big o

  -- The new root is no child of the node.
  moved_p : moved.cache p ≡ t.cache p
  moved_p =
      let same = made_old dflt n g t w big o p p_c in
      let parent =
        moves.rest_parent p (λ e. w_p (sym e)) p_c
          (λ inner i l e.
            let x = child_at (t.cache w) (n + i) in
            let is : x ≡ p = sym (ap (λ (y : Node V). child_at y (n + i)) at_w) ∙ e in
            elim (o.tree.node w o.alive).kind [
              | inl leaf ↦
                  absurd (ground (arith, leaf.leaf, inner, ap (λ (y : Node V). y.is_leaf) at_w))
              | inr k ↦
                  let child =
                    k.child (n + i)
                      (elim o.full [ inl f ↦ omega (arith, f.1) | inr f ↦ omega (arith, f.1) ]) in
                  ne_root dflt n g t big o x child.alive is
            ]) in
      moves.rest_is p (λ e. w_p (sym e)) p_c
      ∙ ap (λ z. record (m.cache p) { parent = z }) parent
      ∙ same

  fresh : IsFresh n (moved.cache p)
  fresh = subst (IsFresh n) (sym moved_p) (IsFresh-root dflt n g t big o)

  root_is : moved.root ≡ w
  root_is = move_half-root dflt n w c' m

  w_id : (moved.cache w).id ≡ w
  w_id = moves.id_is ∙ ap (λ (y : Node V). y.id) at_w ∙ (o.tree.node w o.alive).id_is

  at_root :
      before p ≡ record (t.cache p) { id = p; childs = set (t.cache p).childs 0 w; childs_size = 1 }
  at_root = raised_root dflt n g t big o

  at_old : before w ≡ record (t.cache w) { parent = p }
  at_old = raised-w dflt n g t big o

  -- The new root as the code makes it, and as an insertion into the raised one.
  abbrev made_root : Node V → Node V
  made_root y = record y {
    vals = set y.vals 0 mid;
    vals_size = 1;
    childs = set (set y.childs 0 w) 1 c';
    childs_size = 2;
    id = p;
  }

  abbrev grown : Node V → ℕ × V → Node V
  grown y v = record y {
    vals = insert_to_array (y.vals_size + 1) 0 v y.vals;
    vals_size = y.vals_size + 1;
    childs = insert_to_array (y.childs_size + 1) 1 c' y.childs;
    childs_size = y.childs_size + 1;
  }

  grown_is : grown (before p) (val_at dflt (before w) h) ≡ made_root (t.cache p)
  grown_is =
      let no_vals = (IsFresh-root dflt n g t big o).no_vals in
      let xs = (t.cache p).vals in
      let ys = set (t.cache p).childs 0 w in
      ap (λ y. grown y (val_at dflt (before w) h)) at_root
      ∙ ap
          (λ (y : Node V).
            grown (record (t.cache p) { id = p; childs = ys; childs_size = 1 }) (val_at dflt y h))
          at_old
      ∙ ap
          (λ k. record (t.cache p) {
            vals = insert_to_array (k + 1) 0 mid xs;
            vals_size = k + 1;
            childs = insert_to_array 2 1 c' ys;
            childs_size = 2;
            id = p;
          })
          no_vals
      ∙ ap
          (λ zs. record (t.cache p) {
            vals = zs;
            vals_size = 1;
            childs = insert_to_array 2 1 c' ys;
            childs_size = 2;
            id = p;
          })
          (insert_to_array_last 0 mid xs)
      ∙ ap
          (λ zs. record (t.cache p) {
            vals = set xs 0 mid;
            vals_size = 1;
            childs = zs;
            childs_size = 2;
            id = p;
          })
          (insert_to_array_last 1 c' ys)

  tops_r : crowned.cache p ≡ made_root (moved.cache p)
  tops_r =
      top_r dflt n w c' p mid moved root_is w_p c_p w_c w_id moves.new_id fresh.no_vals
        fresh.no_childs

  joined : IsJoined dflt n before m.cache moved.cache crowned.cache w c' p 0 h
  joined =
      let empty = root_empty dflt n g t big o in
      let f = IsFresh-root dflt n g t big o in
      let one = ap (λ (y : Node V). y.childs_size) at_root in
      record {
        half = moves;
        belongs = record {
          in_range = omega arith;
          before = λ i l. absurd (omega arith);
          after = λ i l l'. absurd (omega (arith, empty));
          room = omega (arith, empty, big);
          vals_long = ap (λ (y : Node V). length y.vals) at_root ∙ f.vals_long;
        };
        childs_count = omega (arith, one, empty);
        childs_room = omega (arith, one, big);
        childs_long =
            ap (λ (y : Node V). length y.childs) at_root
            ∙ length-set (t.cache p).childs 0 w
            ∙ f.childs_long;
        start_w =
            at_w
            ∙ ap (λ z. record (t.cache w) { parent = z }) (sym (ap (λ (y : Node V). y.parent) at_w))
            ∙ ap (λ (y : Node V). record y { parent = (m.cache w).parent }) (sym at_old);
        start_x = λ x x_w x_c x_p.
            made_old dflt n g t w big o x x_c ∙ sym (raised_other dflt n g t big o x x_p x_w);
        after_w =
            top_w dflt n w c' p mid moved root_is w_p c_p w_c w_id moves.new_id fresh.no_vals
              fresh.no_childs
            ∙ ap (λ z. record (moved.cache w) { parent = z })
                (sym (ap (λ (y : Node V). y.parent) at_old));
        after_c =
            top_c dflt n w c' p mid moved root_is w_p c_p w_c w_id moves.new_id fresh.no_vals
              fresh.no_childs;
        after_p = tops_r ∙ ap made_root moved_p ∙ sym grown_is;
        after_x = λ x x_w x_c x_p.
            top_other dflt n w c' p mid moved root_is w_p c_p w_c w_id moves.new_id fresh.no_vals
              fresh.no_childs x x_w x_c x_p;
      }

  pub insert_to_parent-crowned :
      t.cache_pos + 1 ≤ t.cache_size
      → insert_to_parent dflt n w c' (val_at dflt (m.cache w) ((m.cache w).vals_size / 2)) moved
        ≡ ok (p, crowned)
  insert_to_parent-crowned room =
      let pos = move_half-pos dflt n w c' m in
      let parent_is = moves.parent_is ∙ ap (λ (y : Node V). y.parent) at_w ∙ o.tree.root_top in
      ap (λ (y : Node V). insert_to_parent dflt n w c' (val_at dflt y (y.vals_size / 2)) moved) at_w
      ∙ insert_to_parent_top dflt n w c' p mid moved parent_is pos.0 (omega (arith, room, pos.1))

  pub crown-Splitting :
      Splitting dflt n before crowned.cache (raised_ghost dflt n g t big o) p w c' p 0 h
  crown-Splitting = record {
    tree = raised-IsTree dflt n g t big o;
    split = joined-IsSplit dflt n before m.cache moved.cache crowned.cache w c' p 0 h joined;
    big = big;
    alive = live_of dflt n g t big o w o.alive;
    new = let none = o.free c' (omega arith) in let ne = c_p in ground (arith, none, ne);
    new_pos = o.pos;
    up = ap (λ (y : Node V). y.parent) at_old;
    up_alive = ground arith;
    up_level = level_root dflt n g t big o ∙ sym (ap suc (level_of dflt n g t big o w o.alive));
    in_range = omega arith;
    is_child = first_child dflt n g t big o;
  }

  -- The rest of the state after the round.
  pub crowned-state :
      (crowned.root ≡ t.cache_pos + 1)
      × (crowned.cache_pos ≡ t.cache_pos + 1 + 1)
      × (crowned.cache_size ≡ t.cache_size)
  crowned-state =
      let state = add_root-state dflt n w c' p mid (rooted dflt n w c' p mid moved) in
      (state.0, state.1, state.2 ∙ (move_half-pos dflt n w c' m).1)

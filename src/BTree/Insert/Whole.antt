-- ===== src/BTree/Insert/Whole.antt =====
-- `insert` of include/btree.hpp: what is stored after it.
use nkvdb.Prelude.{
  ℕ, suc, ◌+◌, ◌-◌, ◌*◌, ◌≤◌, ◌<◌, ◌≡◌, ◌≢◌, ◌⊎◌, inl, inr, refl, sym, ap, ◌∙◌, true, false, arith,
  if◌then◌else◌, dec_lt, ℕ_discrete, word, Option, none, some,
}
use mathlib.Core.Path.{subst}
use nkvdb.Prelude.Result.{Result, ok, err, assertion}
use nkvdb.BTree.{BTree, insert, find_in_leaf, iner_find, split_node}
use nkvdb.BTree.Nodes.{Node, val_at, lower_bound, is_full}
use nkvdb.BTree.Move.Halves.{IsFresh}
use nkvdb.BTree.Shape.{Ghost, key_at, IsNodeAt, Has, IsSized}
use nkvdb.BTree.Shape.Search.{lower_bound-IsLowerBound, IsLeafOf, iner_find-IsLeafOf}
use nkvdb.BTree.Split.{IsGood, IsOver}
use nkvdb.BTree.Split.Rounds.{split_node-Outcome}
use nkvdb.BTree.Insert.{Inserting, inserted, at_other, shape_same}
use nkvdb.BTree.Insert.Leaf.{inserted-IsTree, size_is}
use nkvdb.BTree.Insert.Stored.{Has-inserted, Has-kept, Has-old}

module _ {V : Type 0} (dflt : V) (n : ℕ) where
  -- An insertion: the tree is one again, and stores what it did and the new value.
  pub record Inserted (g : Ghost) (t : BTree V) (key : ℕ) (val : V) (result : Result (BTree V))
      : Type 0 where
    pub ghost : Ghost
    pub state : BTree V
    pub result_is : result ≡ ok state
    pub good : IsGood dflt n ghost state
    pub used : state.cache_pos ≤ t.cache_pos + g.level t.root + 2
    pub size_same : state.cache_size ≡ t.cache_size
    pub height : ghost.level state.root ≤ suc (g.level t.root)
    pub stored : Has dflt state.cache ghost key val
    pub kept : (k : ℕ) (v : V) → Has dflt t.cache g k v → Has dflt state.cache ghost k v
    pub no_more :
        (k : ℕ) (v : V)
        → Has dflt state.cache ghost k v
        → Has dflt t.cache g k v ⊎ ((k ≡ key) × (v ≡ val))

  not_full : (node : Node V) → node.vals_size + 1 < n * 2 → is_full n node ≡ false
  unfolding is_full
  not_full node l = ground (arith, l)

  now_full : (node : Node V) → n * 2 ≤ node.vals_size + 1 → is_full n node ≡ true
  unfolding is_full
  now_full node l = ground (arith, l)

  out_ptr-find_in_leaf :
      (key z : ℕ) (node : Node V) (r : V) → (find_in_leaf dflt n key z node r).out_ptr ≡ some z
  unfolding find_in_leaf
  out_ptr-find_in_leaf key z node r = ground arith

  module _ (fuel key : ℕ) (val : V) (g : Ghost) (t : BTree V) (big : 2 ≤ n)
      (good : IsGood dflt n g t) where
    insert-eq :
        (z : ℕ)
        → iner_find dflt n fuel key t.root none dflt t
          ≡ ok (find_in_leaf dflt n key z (t.cache z) dflt)
        → insert dflt n fuel key val t ≡ (
            if is_full n (t.cache z)
            then split_node dflt n fuel z (inserted dflt n key val z 0 g t)
            else ok (inserted dflt n key val z 0 g t))
    unfolding insert
    insert-eq z e =
        let on : Option ℕ → Result (BTree V) = λ o. elim o [
          | none ↦ err assertion
          | some w ↦
              if is_full n (t.cache w)
              then split_node dflt n fuel w (inserted dflt n key val w 0 g t)
              else ok (inserted dflt n key val w 0 g t)
        ] in
        let step : insert dflt n fuel key val t
            ≡ on (find_in_leaf dflt n key z (t.cache z) dflt).out_ptr =
          rw e refl in
        step ∙ ap on (out_ptr-find_in_leaf key z (t.cache z) dflt)

    -- A key that is not stored belongs to a place in the leaf that the search finds.
    inserting :
        (z : ℕ)
        → IsLeafOf dflt n g t.cache key z
        → ((v : V) → Has dflt t.cache g key v → ⊥)
        → (d : ℕ) × Inserting dflt n key val z d g t
    inserting z at new =
        let node = good.tree.node z at.alive in
        let size = leaf_size z at in
        let low = lower_bound key (t.cache z).vals_size (t.cache z).vals in
        let b =
          lower_bound-IsLowerBound dflt key (t.cache z) (omega (arith, size, node.vals_long)) in
        (
          low,
          record {
            tree = good.tree;
            alive = at.alive;
            leaf = at.leaf;
            belongs = record {
              in_range = b.most;
              before = b.before;
              after = above_new z at new node size;
              room = size;
              vals_long = node.vals_long;
            };
            from = at.from;
            below = at.below;
          },
        )
      where
        above_new :
            (z : ℕ)
            → IsLeafOf dflt n g t.cache key z
            → ((v : V) → Has dflt t.cache g key v → ⊥)
            → IsNodeAt dflt t.cache g n t.root z
            → (t.cache z).vals_size < n * 2
            → (i : ℕ) → lower_bound key (t.cache z).vals_size (t.cache z).vals ≤ i
            → i < (t.cache z).vals_size
            → key < key_at dflt (t.cache z) i
        above_new z at new node size i l l' =
            let low = lower_bound key (t.cache z).vals_size (t.cache z).vals in
            let b =
              lower_bound-IsLowerBound dflt key (t.cache z) (omega (arith, size, node.vals_long)) in
            let from : key ≤ key_at dflt (t.cache z) i = elim (ℕ_discrete low i) [
              | yes e ↦ omega (arith, b.at (omega arith), ap (key_at dflt (t.cache z)) e)
              | no ne ↦ omega (arith, b.at (omega arith), node.sorted low i (omega arith) l')
            ] in
            elim (ℕ_discrete (key_at dflt (t.cache z) i) key) [
              | yes e ↦ absurd (
                  new (val_at dflt (t.cache z) i).1 (record {
                    leaf = z;
                    alive = at.alive;
                    is_leaf = at.leaf;
                    place = i;
                    in_range = l';
                    val_is = ap (λ k. (k, (val_at dflt (t.cache z) i).1)) e;
                  }))
              | no ne ↦ omega arith
            ]

        leaf_size : (z : ℕ) → IsLeafOf dflt n g t.cache key z → (t.cache z).vals_size < n * 2
        leaf_size z at = elim (good.sized z at.alive) [ inl l ↦ l.1 | inr i ↦ omega (arith, i.2) ]

    module _ (z d : ℕ) (s : Inserting dflt n key val z d g t) where
      abbrev t' : BTree V
      t' = inserted dflt n key val z d g t

      IsSized-other :
          (x : ℕ) → x ≢ z → g.live x ≡ true → IsSized n ((inserted dflt n key val z d g t).cache x)
      IsSized-other x ne alive =
          subst (IsSized n) (sym (at_other dflt n key val z d g t s x ne)) (good.sized x alive)

      leaf_now : ((inserted dflt n key val z d g t).cache z).is_leaf ≡ true
      leaf_now = ap (λ (y : Node V). y.is_leaf) (shape_same dflt n key val z d g t s z) ∙ s.leaf

      IsFresh-now :
          (x : ℕ) → t.cache_pos ≤ x → IsFresh n ((inserted dflt n key val z d g t).cache x)
      IsFresh-now x l =
          let ne : x ≢ z = λ e. absurd (ground (arith, good.free x l, s.alive, ap g.live e)) in
          subst (IsFresh n) (sym (at_other dflt n key val z d g t s x ne)) (good.fresh x l)

      inserted-IsGood :
          (t.cache z).vals_size + 1 < n * 2 → IsGood dflt n g (inserted dflt n key val z d g t)
      inserted-IsGood l = record {
        tree = inserted-IsTree dflt n key val z d g t s;
        sized = λ x alive. elim (ℕ_discrete x z) [
          | no ne ↦ IsSized-other x ne alive
          | yes e ↦
              subst (λ y. IsSized n (t'.cache y)) (sym e)
                (inl (leaf_now, omega (arith, size_is dflt n key val z d g t s)))
        ];
        fresh = IsFresh-now;
        free = good.free;
        pos = good.pos;
      }

      inserted-IsOver :
          (t.cache z).vals_size < n * 2
          → n * 2 ≤ (t.cache z).vals_size + 1
          → IsOver dflt n g (inserted dflt n key val z d g t) z
      inserted-IsOver most l = record {
        tree = inserted-IsTree dflt n key val z d g t s;
        alive = s.alive;
        full = inl (leaf_now, omega (arith, size_is dflt n key val z d g t s));
        sized = IsSized-other;
        fresh = IsFresh-now;
        free = good.free;
        pos = good.pos;
      }

    -- With `n` at least 2, where the node array is a tree with no node too full and its free nodes are
    -- new, for a key of 64 bits that is not stored, with fuel more than the height of the tree and as
    -- many free nodes as that and two, `insert` returns a state of which the same holds, that is at
    -- most one higher, uses no more nodes than those, and stores the value, all the values that were
    -- stored and no others.
    pub insert-Inserted :
        key < word
        → ((v : V) → Has dflt t.cache g key v → ⊥)
        → g.level t.root < fuel
        → t.cache_pos + g.level t.root + 2 ≤ t.cache_size
        → Inserted g t key val (insert dflt n fuel key val t)
    insert-Inserted small new enough room =
        let (z, at, end) =
          iner_find-IsLeafOf dflt n g fuel key t.root t.root none dflt t good.tree good.sized
            good.tree.root_live (omega (arith, good.tree.root_lo))
            (omega (arith, good.tree.root_hi)) enough in
        let (d, s) = inserting z at new in
        let is = insert-eq z end in
        elim (dec_lt ((t.cache z).vals_size + 1) (n * 2)) [
          | yes l ↦ record {
            ghost = g;
            state = inserted dflt n key val z d g t;
            result_is =
                is
                ∙ ap
                    (λ b.
                      if b
                      then split_node dflt n fuel z (inserted dflt n key val z d g t)
                      else ok (inserted dflt n key val z d g t))
                    (not_full (t.cache z) l);
            good = inserted-IsGood z d s l;
            used = omega arith;
            size_same = refl;
            height = omega arith;
            stored = Has-inserted dflt n key val z d g t s;
            kept = Has-kept dflt n key val z d g t s;
            no_more = Has-old dflt n key val z d g t s;
          }
          | no l ↦
              let out =
                split_node-Outcome dflt n (g.level t.root - g.level z) fuel z g
                  (inserted dflt n key val z d g t) big
                  (inserted-IsOver z d s s.belongs.room (omega arith))
                  (omega (arith, good.tree.deep z at.alive)) (omega arith) (omega arith) in
              record {
                ghost = out.ghost;
                state = out.state;
                result_is =
                    is
                    ∙ ap
                        (λ b.
                          if b
                          then split_node dflt n fuel z (inserted dflt n key val z d g t)
                          else ok (inserted dflt n key val z d g t))
                        (now_full (t.cache z) (omega arith))
                    ∙ out.result_is;
                good = out.good;
                used = omega (arith, out.used);
                size_same = out.size_same;
                height = out.height;
                stored = out.kept key val (Has-inserted dflt n key val z d g t s);
                kept = λ k v has. out.kept k v (Has-kept dflt n key val z d g t s k v has);
                no_more = λ k v has. Has-old dflt n key val z d g t s k v (out.no_more k v has);
              }
        ]

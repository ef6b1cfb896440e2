-- ===== src/BTree/Insert/Many.antt =====
-- Insertions into a tree of include/btree.hpp, one after another, and `find` after them.
use nkvdb.Prelude.{
  ℕ, zero, suc, ◌+◌, ◌≤◌, ◌<◌, ◌≡◌, ◌≢◌, inl, inr, refl, ap, ◌∙◌, arith, length, word, List, [],
  ◌∷◌,
}
use nkvdb.Prelude.Result.{Result, ok, ◌>>=◌}
use nkvdb.BTree.{BTree, insert, find, init_cache}
use nkvdb.BTree.Shape.{Ghost, Has}
use nkvdb.BTree.Shape.Find.{find-Has}
use nkvdb.BTree.Split.{IsGood}
use nkvdb.BTree.Insert.Whole.{insert-Inserted}
use nkvdb.BTree.Insert.New.{new_tree, new_ghost, new_tree-IsGood, new_tree_empty}

-- The nodes that are enough for `k` insertions into a tree of this height.
unfoldable pub spare : ℕ → ℕ → ℕ
spare height zero = 0
spare height (suc k) = height + 2 + spare (suc height) k

spare_mono : (a b k : ℕ) → a ≤ b → spare a k ≤ spare b k
unfolding spare
spare_mono a b zero l = omega arith
spare_mono a b (suc k) l = omega (arith, spare_mono (suc a) (suc b) k (omega arith))

module _ {V : Type 0} where
  -- An element of a list.
  pub data IsIn (x : ℕ × V) : List (ℕ × V) → Type 0 where
    here : {xs : List (ℕ × V)} → IsIn x (x ∷ xs)
    there : {y : ℕ × V} {xs : List (ℕ × V)} → IsIn x xs → IsIn x (y ∷ xs)

  in_cons :
      (P : ℕ × V → Type 0) (x y : ℕ × V) (xs : List (ℕ × V))
      → IsIn y (x ∷ xs)
      → P x
      → (IsIn y xs → P y)
      → P y
  in_cons P x _ xs here px rest = px
  in_cons P x y xs (there m) px rest = rest m

  -- Keys of 64 bits, no two of them the same.
  unfoldable pub AreApart : List (ℕ × V) → Type 0
  AreApart [] = Unit {0}
  AreApart (x ∷ xs) = (x.0 < word) × ((y : ℕ × V) → IsIn y xs → y.0 ≢ x.0) × AreApart xs

module _ {V : Type 0} (dflt : V) (n : ℕ) where
  unfoldable pub insert_all : ℕ → List (ℕ × V) → BTree V → Result (BTree V)
  insert_all fuel [] t = ok t
  insert_all fuel (x ∷ xs) t = insert dflt n fuel x.0 x.1 t >>= insert_all fuel xs

  record AllInserted (g : Ghost) (t : BTree V) (xs : List (ℕ × V)) (result : Result (BTree V))
      : Type 0 where
    ghost : Ghost
    state : BTree V
    result_is : result ≡ ok state
    good : IsGood dflt n ghost state
    height : ghost.level state.root ≤ g.level t.root + length xs
    stored : (x : ℕ × V) → IsIn x xs → Has dflt state.cache ghost x.0 x.1
    kept : (k : ℕ) (v : V) → Has dflt t.cache g k v → Has dflt state.cache ghost k v

  insert_all-AllInserted :
      (fuel : ℕ) (g : Ghost) (xs : List (ℕ × V)) (t : BTree V)
      → 2 ≤ n
      → IsGood dflt n g t
      → AreApart xs
      → ((x : ℕ × V) → IsIn x xs → (v : V) → Has dflt t.cache g x.0 v → ⊥)
      → g.level t.root + length xs ≤ fuel
      → t.cache_pos + spare (g.level t.root) (length xs) ≤ t.cache_size
      → AllInserted g t xs (insert_all fuel xs t)
  unfolding insert_all spare AreApart
  insert_all-AllInserted fuel g [] t big good apart new enough room = record {
    ghost = g;
    state = t;
    result_is = refl;
    good = good;
    height = omega arith;
    stored = λ x m. none_in x m;
    kept = λ k v has. has;
  }
    where
      none_in : (x : ℕ × V) → IsIn x [] → Has dflt t.cache g x.0 x.1
      none_in x m = elim m [ ]
  insert_all-AllInserted fuel g (x ∷ xs) t big good apart new enough room =
      let one =
        insert-Inserted dflt n fuel x.0 x.1 g t big good apart.0 (new x here) (omega arith)
          (omega arith) in
      let still_new : (y : ℕ × V)
          → IsIn y xs
          → (v : V) → Has dflt one.state.cache one.ghost y.0 v
          → ⊥ =
        λ y m v has. elim (one.no_more y.0 v has) [
          | inl old ↦ new y (there m) v old
          | inr same ↦ apart.1 y m same.0
        ] in
      let mono =
        spare_mono (one.ghost.level one.state.root) (suc (g.level t.root)) (length xs) one.height in
      let rest =
        insert_all-AllInserted fuel one.ghost xs one.state big one.good apart.2 still_new
          (omega (arith, one.height)) (omega (arith, mono, one.used, one.size_same)) in
      record {
        ghost = rest.ghost;
        state = rest.state;
        result_is = ap (λ q. q >>= insert_all fuel xs) one.result_is ∙ rest.result_is;
        good = rest.good;
        height = omega (arith, rest.height, one.height);
        stored = λ y m.
            in_cons (λ z. Has dflt rest.state.cache rest.ghost z.0 z.1) x y xs m
              (rest.kept x.0 x.1 one.stored) (rest.stored y);
        kept = λ k v has. rest.kept k v (one.kept k v has);
      }

  small_of : (xs : List (ℕ × V)) (x : ℕ × V) → AreApart xs → IsIn x xs → x.0 < word
  unfolding AreApart
  small_of [] x apart m = elim m [ ]
  small_of (y ∷ xs) _ apart here = apart.0
  small_of (y ∷ xs) x apart (there m) = small_of xs x apart.2 m

  -- With `n` at least 2, into the tree of a new file, with more fuel than there are values and the
  -- nodes of `spare` free, values of a list with different keys of 64 bits are inserted one after
  -- another without an error, and then `find`, with the same fuel, gives the value of each key.
  pub find-insert_all :
      (fuel size : ℕ) (xs : List (ℕ × V)) (x : ℕ × V)
      → 2 ≤ n
      → AreApart xs
      → length xs < fuel
      → 2 + spare 0 (length xs) ≤ size
      → IsIn x xs
      → (insert_all fuel xs
            (record { cache = init_cache dflt n; cache_size = size; cache_pos = 2; root = 1 })
          >>= find dflt n fuel x.0)
        ≡ ok x.1
  find-insert_all fuel size xs x big apart enough room m =
      let some_room : 0 < n = omega arith in
      let r =
        insert_all-AllInserted fuel new_ghost xs (new_tree dflt n some_room size) big
          (new_tree-IsGood dflt n some_room size) apart
          (λ y m v. new_tree_empty dflt n some_room size y.0 v) (omega arith) room in
      ap (λ q. q >>= find dflt n fuel x.0) r.result_is
      ∙ find-Has dflt n r.ghost r.state fuel x.0 x.1 r.good.tree r.good.sized (r.stored x m)
          (small_of xs x apart m) (omega (arith, r.height))

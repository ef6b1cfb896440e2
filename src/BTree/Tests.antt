-- ===== src/BTree/Tests.antt =====
-- Runs of include/btree.hpp, and instances of the theorems about it.
use nkvdb.Prelude.{
  ℕ, zero, suc, ◌+◌, ◌≡◌, ◌≢◌, ◌==◌, ◌&&◌, not, Bool, true, refl, List, [], ◌∷◌, take, map, arith,
}
use nkvdb.Prelude.Result.{Result, ok, err, ◌>>=◌}
use nkvdb.BTree.{BTree, zero_node, init_cache, insert, find, find_node}
use nkvdb.BTree.Nodes.{Node, insert_value, insert_child, is_full, lower_bound}
use nkvdb.BTree.Array.{insert_to_array}
use nkvdb.BTree.Nodes.Insert.{used, insert_sorted, used-insert_value}
use nkvdb.BTree.Shape.Find.{find-Has}
use nkvdb.BTree.Insert.Whole.{Inserted, insert-Inserted}
use nkvdb.BTree.Insert.New.{new_ghost, new_tree-IsGood, new_tree_empty}
use nkvdb.BTree.Insert.Many.{spare, IsIn, here, there, AreApart, insert_all, find-insert_all}

abbrev start : BTree ℕ
start = record { cache = init_cache 0 2; cache_size = 50; cache_pos = 2; root = 1 }

fill : ℕ → ℕ → BTree ℕ → Result (BTree ℕ)
fill zero k t = ok t
fill (suc n) k t = insert 0 2 20 k k t >>= fill n (k + 1)

-- The keys of the leaves from `w` on.
abbrev leaves : ℕ → ℕ → Result (BTree ℕ) → List (List ℕ)
leaves zero w r = []
leaves (suc n) w (err e) = []
leaves (suc n) w (ok t) =
    map (λ v. v.0) (take (t.cache w).vals_size (t.cache w).vals) ∷ leaves n (t.cache w).next (ok t)

insert_seven : leaves 3 1 (fill 7 1 start) ≡ (1 ∷ 2 ∷ []) ∷ (3 ∷ 4 ∷ []) ∷ (5 ∷ 6 ∷ 7 ∷ []) ∷ []
unfolding fill insert init_cache lower_bound is_full insert_value insert_child
insert_seven = refl

find_seven : (fill 7 1 start >>= find_node 0 2 20 4) ≡ ok 2
unfolding fill insert init_cache find_node lower_bound is_full insert_value insert_child
find_seven = refl

abbrev array : List ℕ
array = 7 ∷ 8 ∷ 0 ∷ 4 ∷ []

abbrev sorted_node : Node ℕ
sorted_node = record (zero_node 0 2) {
  vals = (3, 30) ∷ (5, 50) ∷ (0, 0) ∷ (0, 0) ∷ [];
  vals_size = 2;
}

used-insert_value_example :
    used (insert_value 0 4 40 sorted_node) ≡ insert_sorted (4, 40) (used sorted_node)
used-insert_value_example = used-insert_value 0 4 40 sorted_node (omega arith)

insert-Inserted_example : Inserted 0 2 new_ghost start 3 30 (insert 0 2 1 3 30 start)
insert-Inserted_example =
    insert-Inserted 0 2 1 3 30 new_ghost start (omega arith) (new_tree-IsGood 0 2 (omega arith) 50)
      (omega arith) (new_tree_empty 0 2 (omega arith) 50 3) (omega arith) (omega arith)

with_three : Inserted 0 2 new_ghost start 3 30 (insert 0 2 1 3 30 start)
with_three =
    insert-Inserted 0 2 1 3 30 new_ghost start (omega arith) (new_tree-IsGood 0 2 (omega arith) 50)
      (omega arith) (new_tree_empty 0 2 (omega arith) 50 3) (omega arith) (omega arith)

find-Has_example : find 0 2 2 3 with_three.state ≡ ok 30
find-Has_example =
    find-Has 0 2 with_three.ghost with_three.state 2 3 30 with_three.good.tree with_three.good.sized
      with_three.stored (omega arith) (omega (arith, with_three.height))

abbrev five : List (ℕ × ℕ)
five = (3, 30) ∷ (1, 10) ∷ (2, 20) ∷ (5, 50) ∷ (4, 40) ∷ []

absent : ℕ → List (ℕ × ℕ) → Bool
absent k [] = true
absent k (x ∷ xs) = not (x.0 == k) && absent k xs

absent-ne : (k : ℕ) (xs : List (ℕ × ℕ)) → absent k xs ≡ true → (y : ℕ × ℕ) → IsIn y xs → y.0 ≢ k
unfolding absent
absent-ne k [] h y m = elim m [ ]
absent-ne k (x ∷ xs) h _ here = λ e. absurd (ground (arith, h, e))
absent-ne k (x ∷ xs) h y (there m) = absent-ne k xs (ground (arith, h)) y m

abbrev two : List (ℕ × ℕ)
two = (5, 50) ∷ (4, 40) ∷ []

two-AreApart : AreApart two
unfolding absent AreApart
two-AreApart = (omega arith, absent-ne 5 _ refl, (omega arith, absent-ne 4 _ refl, tt))

five-AreApart : AreApart five
unfolding absent AreApart
five-AreApart = (
  omega arith,
  absent-ne 3 _ refl,
  (omega arith, absent-ne 1 _ refl, (omega arith, absent-ne 2 _ refl, two-AreApart)),
)

find-insert_all_example : (insert_all 0 2 6 five start >>= find 0 2 6 4) ≡ ok 40
unfolding spare
find-insert_all_example =
    find-insert_all 0 2 6 50 five (4, 40) (omega arith) five-AreApart (omega arith) (omega arith)
      (there (there (there (there here))))

-- Of six values with one key, the search finds the last leaf, and `next` leads on from there.
equal_keys :
    (insert_all 0 2 20 ((5, 1) ∷ (5, 2) ∷ (5, 3) ∷ (5, 4) ∷ (5, 5) ∷ (5, 6) ∷ []) start
      >>= find_node 0 2 20 5)
    ≡ ok 4
unfolding insert_all insert init_cache find_node lower_bound is_full insert_value insert_child
    insert_to_array
equal_keys = refl

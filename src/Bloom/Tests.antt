-- ===== src/Bloom/Tests.antt =====
-- Runs of include/bloom_filter.h, and an instance of the theorem about it.
use nkvdb.Prelude.{◌≡◌, refl, true, false, [], ◌∷◌, All}
use nkvdb.Bloom.{bloom_empty, bloom_add, bloom_check}
use nkvdb.Bloom.Laws.{bloom_add_all, bloom_no_false_negative}

bloom_check_added : bloom_check (bloom_add (bloom_add bloom_empty 1) 2) 3 ≡ true
unfolding bloom_check bloom_add bloom_empty
bloom_check_added = refl

bloom_check_other : bloom_check (bloom_add bloom_empty 1) 2 ≡ false
unfolding bloom_check bloom_add bloom_empty
bloom_check_other = refl

bloom_no_false_negative_example :
    All (λ v. bloom_check (bloom_add_all 0 (5 ∷ 8 ∷ [])) v ≡ true) (5 ∷ 8 ∷ [])
bloom_no_false_negative_example = bloom_no_false_negative 0 (5 ∷ 8 ∷ [])

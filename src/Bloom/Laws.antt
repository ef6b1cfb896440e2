-- ===== src/Bloom/Laws.antt =====
-- Runs of additions to a filter of include/bloom_filter.h.
use nkvdb.Prelude.{ℕ, ◌≡◌, true, List, [], ◌∷◌, ==_iff, All}
use nkvdb.Prelude.Bits.{bit_and-bit_or_self, bit_and-bit_or_mono}
use nkvdb.Bloom.{bloom_add, bloom_check}

pub bloom_check-add_self : (f v : ℕ) → bloom_check (bloom_add f v) v ≡ true
unfolding bloom_check bloom_add
bloom_check-add_self f v = (==_iff _ v).1 (bit_and-bit_or_self f v)

pub bloom_check-add : (f w v : ℕ) → bloom_check f v ≡ true → bloom_check (bloom_add f w) v ≡ true
unfolding bloom_check bloom_add
bloom_check-add f w v h = (==_iff _ v).1 (bit_and-bit_or_mono f w v ((==_iff _ v).0 h))

-- The filter after a run of additions, in order.
pub bloom_add_all : ℕ → List ℕ → ℕ
bloom_add_all f [] = f
bloom_add_all f (v ∷ vs) = bloom_add_all (bloom_add f v) vs

pub bloom_check-add_all :
    (f v : ℕ) (vs : List ℕ) → bloom_check f v ≡ true → bloom_check (bloom_add_all f vs) v ≡ true
unfolding bloom_add_all
bloom_check-add_all f v [] h = h
bloom_check-add_all f v (w ∷ vs) h =
    bloom_check-add_all (bloom_add f w) v vs (bloom_check-add f w v h)

-- After any run of additions to any filter, the check passes for every value of the run.
pub bloom_no_false_negative :
    (f : ℕ) (vs : List ℕ) → All (λ v. bloom_check (bloom_add_all f vs) v ≡ true) vs
unfolding bloom_add_all
bloom_no_false_negative f [] = tt
bloom_no_false_negative f (v ∷ vs) = (
  bloom_check-add_all (bloom_add f v) v vs (bloom_check-add_self f v),
  bloom_no_false_negative (bloom_add f v) vs,
)

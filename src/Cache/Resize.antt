-- ===== src/Cache/Resize.antt =====
-- `Cache::setSize` of libnkvdb/cache.cpp sets `m_size` to the new capacity.
use nkvdb.Prelude.{ℕ, zero, suc, ◌≡◌, ◌≢◌, refl, ap, true, List, ◌∷◌, take, replicate, arith}
use nkvdb.Meas.{Meas, empty}
use nkvdb.Cache.{Cache, set_size, is_full}
use nkvdb.Cache.Content.{IsValid, contents}

-- What the writer thread takes from a cache: `size()` elements of `asArray()`.
abbrev pub flushed : Cache → List Meas
flushed c = take c.size c.meases

take-replicate {ℓ} : {A : Type ℓ} (n : ℕ) (a : A) → take n (replicate n a) ≡ replicate n a
take-replicate zero a = refl
take-replicate (suc n) a = ap (λ xs. a ∷ xs) (take-replicate n a)

-- A change of the capacity loses what a cache holds: it becomes full, of as many empty measurements
-- as it has room for, and it is these that the writer would take. The same capacity changes nothing.
pub set_size_lem :
    (sz : ℕ) (c : Cache)
    → ((sz ≡ c.max_size) → set_size sz c ≡ c)
      × ((sz ≢ c.max_size)
          → (is_full (set_size sz c) ≡ true)
            × (flushed (set_size sz c) ≡ replicate sz empty)
            × ((set_size sz c).index ≡ c.index))
unfolding set_size is_full
set_size_lem sz c = (λ e. ground arith, λ e. ground (arith, take-replicate sz empty))

-- In a valid cache the writer takes what was stored.
pub flushed-eq-contents : (c : Cache) → IsValid c → flushed c ≡ contents c
flushed-eq-contents c v = ap (λ n. take n c.meases) v.counted

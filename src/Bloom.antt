-- ===== src/Bloom.antt =====
-- include/bloom_filter.h: a one-word filter, to which values are added by `|`.
pub mod Laws
mod Tests
use nkvdb.Prelude.{ℕ, Bool, bit_and, bit_or, ◌==◌}

unfoldable pub bloom_empty : ℕ
bloom_empty = 0

unfoldable pub bloom_add : ℕ → ℕ → ℕ
bloom_add fltr val = bit_or fltr val

unfoldable pub bloom_check : ℕ → ℕ → Bool
bloom_check fltr val = bit_and fltr val == val

-- ===== src/Prelude/Bits.antt =====
-- Sums and products of bits, for the filters of include/bloom_filter.h.
use Prim.Native.Nat.{
  ℕ, zero, suc, ◌+◌, ◌*◌, ◌/◌, ◌%◌, ◌≤◌, min, max, bit_and, bit_or, digits, bit_and-bitwise,
  bit_or-bitwise,
}
use mathlib.Core.Path.{◌≡◌, refl}
use native.Mathlib.Omega.{arith}

-- More fuel than digits changes nothing.
module _ (rest : ℕ → ℕ) (digit : ℕ → ℕ → ℕ) where
  abbrev run_digits : ℕ → ℕ → ℕ → ℕ
  run_digits n a b = digits rest digit n a b

  same_digits : (n m a b : ℕ) → a ≤ n → a ≤ m → run_digits n a b ≡ run_digits m a b
  same_digits zero zero a b p q = refl
  same_digits zero (suc m) zero b p q = refl
  same_digits (suc n) zero zero b p q = refl
  same_digits (suc n) (suc m) zero b p q = refl
  same_digits zero (suc m) (suc a) b p q = absurd (omega arith)
  same_digits (suc n) zero (suc a) b p q = absurd (omega arith)
  same_digits (suc n) (suc m) (suc a) b p q =
      omega (arith, same_digits n m (suc a / 2) (b / 2) (omega arith) (omega arith))

  lowest_digit :
      (a b : ℕ)
      → run_digits (suc a) (suc a) b
        ≡ run_digits (suc a / 2) (suc a / 2) (b / 2) * 2 + digit (suc a % 2) (b % 2)
  lowest_digit a b =
      omega (arith, same_digits a (suc a / 2) (suc a / 2) (b / 2) (omega arith) (omega arith))

pub bit_or_lowest : (a b : ℕ) → bit_or a b ≡ bit_or (a / 2) (b / 2) * 2 + max (a % 2) (b % 2)
bit_or_lowest zero b = omega (arith, bit_or-bitwise 0 b, bit_or-bitwise 0 (b / 2))
bit_or_lowest (suc a) b = omega (
  arith,
  bit_or-bitwise (suc a) b,
  bit_or-bitwise (suc a / 2) (b / 2),
  lowest_digit (λ c. c) max a b,
)

pub bit_and_lowest : (m n : ℕ) → bit_and m n ≡ min (m % 2) (n % 2) + 2 * bit_and (m / 2) (n / 2)
bit_and_lowest (suc m) n = omega (
  arith,
  lowest_digit (λ c. 0) min m n,
  bit_and-bitwise (suc m / 2) (n / 2),
  bit_and-bitwise (suc m) n,
)
bit_and_lowest zero n = omega (arith, bit_and-bitwise 0 (n / 2), bit_and-bitwise 0 n)

and_none : (n a : ℕ) → a ≤ n → bit_and a 0 ≡ 0
and_none n zero h = omega (arith, bit_and-bitwise 0 0)
and_none zero (suc a) h = absurd (omega arith)
and_none (suc n) (suc a) h =
    omega (arith, bit_and_lowest (suc a) 0, and_none n (suc a / 2) (omega arith))

or_half : (a b : ℕ) → bit_or a b / 2 ≡ bit_or (a / 2) (b / 2)
or_half a b = omega (arith, bit_or_lowest a b)

and_half : (a b : ℕ) → bit_and a b / 2 ≡ bit_and (a / 2) (b / 2)
and_half a b = omega (arith, bit_and_lowest a b)

or_covers_fuel : (n f v : ℕ) → v ≤ n → bit_and (bit_or f v) v ≡ v
or_covers_fuel n f zero h = and_none (bit_or f 0) (bit_or f 0) (omega arith)
or_covers_fuel zero f (suc v) h = absurd (omega arith)
or_covers_fuel (suc n) f (suc v) h = ground (
  arith,
  bit_or_lowest f (suc v),
  or_half f (suc v),
  bit_and_lowest (bit_or f (suc v)) (suc v),
  or_covers_fuel n (f / 2) (suc v / 2) (omega arith),
)

-- What a value adds to a filter is in the filter.
pub bit_and-bit_or_self : (f v : ℕ) → bit_and (bit_or f v) v ≡ v
bit_and-bit_or_self f v = or_covers_fuel v f v (omega arith)

or_keeps_fuel : (n f w v : ℕ) → v ≤ n → bit_and f v ≡ v → bit_and (bit_or f w) v ≡ v
or_keeps_fuel n f w zero h e = and_none (bit_or f w) (bit_or f w) (omega arith)
or_keeps_fuel zero f w (suc v) h e = absurd (omega arith)
or_keeps_fuel (suc n) f w (suc v) h e = ground (
  arith,
  bit_or_lowest f w,
  or_half f w,
  bit_and_lowest f (suc v),
  bit_and_lowest (bit_or f w) (suc v),
  or_keeps_fuel n (f / 2) (w / 2) (suc v / 2) (omega arith) (omega (arith, and_half f (suc v))),
)

-- A filter that holds a value holds it after every addition.
pub bit_and-bit_or_mono : (f w v : ℕ) → bit_and f v ≡ v → bit_and (bit_or f w) v ≡ v
bit_and-bit_or_mono f w v = or_keeps_fuel v f w v (omega arith)

pub zero-bit_or : (b : ℕ) → bit_or 0 b ≡ b
zero-bit_or b = omega (arith, bit_or-bitwise 0 b)

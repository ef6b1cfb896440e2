-- ===== src/Prelude/Result.antt =====
-- Results of code that may throw, abort on an assertion, or loop: values and faults.
use mathlib.Core.Path.{◌≡◌, refl}
use mathlib.Core.Bool.{Bool, true, false}

-- `exception` is a C++ exception, `assertion` a failed `assert`, `undefined` undefined behaviour,
-- and `no_fuel` a loop or recursion of the model that was cut short.
pub data Fault : Type 0 where
  exception assertion undefined no_fuel : Fault

pub data Result {ℓ} (A : Type ℓ) : Type ℓ where
  err : Fault → Result A
  ok : A → Result A

infixl 5 ◌>>=◌
abbrev pub ◌>>=◌ {ℓ₁ ℓ₂} :
    {From : Type ℓ₁} {To : Type ℓ₂} → Result From → (From → Result To) → Result To
err fault >>= next = err fault
ok x >>= next = next x

infixl 5 ◌>>◌
abbrev pub ◌>>◌ {ℓ₂} : {To : Type ℓ₂} → Result (Unit {0}) → Result To → Result To
err fault >> next = err fault
ok done >> next = next

-- `assert(b)`, or a `throw` unless `b`.
abbrev pub ensure : Bool → Fault → Result (Unit {0})
ensure b fault = elim b [ true ↦ ok tt | false ↦ err fault ]

-- A chain of two steps that returned has returned after each.
pub >>=-eq-ok {ℓ₁ ℓ₂} :
    {From : Type ℓ₁} {To : Type ℓ₂} (first : Result From) (next : From → Result To) {y : To}
    → (first >>= next) ≡ ok y
    → (x : From) × (first ≡ ok x) × (next x ≡ ok y)
>>=-eq-ok (err fault) next h = cc
>>=-eq-ok (ok x) next h = (x, refl, h)

pub ok-injective {ℓ} : {A : Type ℓ} (a b : A) → ok a ≡ ok b → a ≡ b
ok-injective a b h = cc

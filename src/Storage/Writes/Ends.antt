-- ===== src/Storage/Writes/Ends.antt =====
-- Steps of the storage of libnkvdb/storage.cpp that return, or fail as the writer does.
use nkvdb.Prelude.{ℕ, ◌≡◌, refl, sym, ap, ◌⊎◌, inl, inr, Bool, List}
use mathlib.Core.Path.{subst}
use nkvdb.Prelude.Result.{Result, Fault, ok, err, ◌>>=◌}
use nkvdb.Meas.{Meas}
use nkvdb.Cache.{Cache}
use nkvdb.Storage.Writes.Keeping.{IsFine}

-- The writer fails with `fault` on a cache and on pages such as the storage gives it.
abbrev pub Failed :
    {P : Type 0}
    → (Cache → P → Result (Cache × P))
    → (P → List Meas → Type 0)
    → (Meas → Bool)
    → ℕ
    → Fault
    → Type 0
Failed {P} write stored fits limit fault =
    (c : Cache) × (p : P) × (kept : List Meas) × IsFine fits limit c
    × stored p kept
    × (write c p ≡ err fault)

-- A step that returns a value for which `Q` holds, or fails in one of the ways of `F`.
abbrev pub Ends : {A : Type 0} → (Fault → Type 0) → (A → Type 0) → Result A → Type 0
Ends {A} F Q r = ((x : A) × (r ≡ ok x) × Q x) ⊎ ((fault : Fault) × (r ≡ err fault) × F fault)

pub Result-cases :
    {A : Type 0} (r : Result A) → ((fault : Fault) × (r ≡ err fault)) ⊎ ((x : A) × (r ≡ ok x))
Result-cases (err fault) = inl (fault, refl)
Result-cases (ok x) = inr (x, refl)

pub Ends-eq :
    {A : Type 0} {F : Fault → Type 0} {Q : A → Type 0} {r r' : Result A}
    → r ≡ r'
    → Ends F Q r'
    → Ends F Q r
Ends-eq {F = F} {Q = Q} e h = subst (Ends F Q) (sym e) h

pub map-Ends :
    {A : Type 0} {F : Fault → Type 0} {Q R : A → Type 0} (r : Result A)
    → ((x : A) → r ≡ ok x → Q x → R x)
    → Ends F Q r
    → Ends F R r
map-Ends r f (inl (x, e, q)) = inl (x, e, f x e q)
map-Ends r f (inr failed) = inr failed

pub then-Ends :
    {A B : Type 0} {F : Fault → Type 0} {Q : A → Type 0} {R : B → Type 0} (first : Result A)
    (next : A → Result B)
    → Ends F Q first
    → ((x : A) → first ≡ ok x → Q x → Ends F R (next x))
    → Ends F R (first >>= next)
then-Ends first next (inl (x, e, q)) f = Ends-eq (ap (λ r. r >>= next) e) (f x e q)
then-Ends first next (inr (fault, e, h)) f = inr (fault, ap (λ r. r >>= next) e, h)

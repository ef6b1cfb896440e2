-- ===== src/Meas/Laws.antt =====
-- Values and times of include/meas.h and libnkvdb/meas.cpp.
use nkvdb.Prelude.{
  ℕ, ◌+◌, ◌-◌, ◌≤◌, ◌<◌, ◌≡◌, refl, List, [], ◌∷◌, ◌++◌, some, true, length, take, drop, replicate,
  arith, ◌↔◌, ◌⊎◌, word,
}
use nkvdb.Meas.{Meas, set_value, read_value, check_past_time, value_bytes}

take-append_length {ℓ} : {A : Type ℓ} (xs ys : List A) → take (length xs) (xs ++ ys) ≡ xs
take-append_length [] ys = refl
take-append_length (x ∷ xs) ys = ground (arith, take-append_length xs ys)

-- A value of at most 16 bytes is stored, and read back at a type at least as wide: its own bytes,
-- then zeros. The other fields of the measurement stay.
pub read_value-set_value :
    (v : List ℕ) (m : Meas) (width : ℕ)
    → length v ≤ value_bytes
    → length v ≤ width
    → (m' : Meas) × (set_value v m ≡ some m')
      × (read_value width m' ≡ some (v ++ replicate (width - length v) 0))
      × (m'.id ≡ m.id)
      × (m'.time ≡ m.time)
unfolding set_value read_value
read_value-set_value v m width h k = (
  record m { size = length v; value = v ++ drop (length v) m.value },
  ground arith,
  ground (arith, take-append_length v (drop (length v) m.value)),
  refl,
  refl,
)

-- A measurement is young enough when no limit is set, when its age is within the limit, or, from
-- the future, when the wrapped difference is.
pub check_past_time_lem :
    (now t past_time : ℕ)
    → now < word
    → t < word
    → (check_past_time now t past_time ≡ true) ↔ (
        (past_time ≡ 0)
        ⊎ ((t ≤ now) × (now - t ≤ past_time))
        ⊎ ((now < t) × (now + word - t ≤ past_time)))
unfolding check_past_time
check_past_time_lem now t past_time h k = ground arith

-- ===== src/Meas/Tests.antt =====
-- Instances of the theorems about include/meas.h and libnkvdb/meas.cpp.
use nkvdb.Prelude.{ℕ, ◌+◌, ◌≡◌, refl, [], ◌∷◌}
use nkvdb.Meas.{Meas, empty, append_list, AppendResult}

-- A storage that takes every measurement and counts them.
abbrev counting : Meas → ℕ → ℕ × AppendResult
counting m n = (n + 1, record { writed = 1; ignored = 0 })

append_list_two :
    append_list counting (empty ∷ empty ∷ []) 5 ≡ (7, record { writed = 2; ignored = 0 })
unfolding append_list
append_list_two = refl

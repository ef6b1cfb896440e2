-- ===== src/WriteWindow/Tests.antt =====
-- Instances of the theorems about libnkvdb/writewindow.cpp.
use nkvdb.Prelude.{ℕ, ◌≡◌, refl, List, [], ◌∷◌}
use nkvdb.Meas.{Meas, empty}
use nkvdb.WriteWindow.{slot, update_all, assign}
use nkvdb.WriteWindow.Latest.{IsLatest, update_all-IsLatest}

abbrev at_time : ℕ → ℕ → Meas
at_time id t = record empty { id = id; time = t }

abbrev three : List Meas
three = at_time 1 7 ∷ at_time 2 4 ∷ at_time 1 5 ∷ []

update_all-IsLatest_example : IsLatest 1 three (slot [] 1) (slot (update_all three []) 1)
update_all-IsLatest_example = update_all-IsLatest 1 three []

update_all_runs : slot (update_all three []) 1 ≡ at_time 1 7
unfolding update_all slot nkvdb.WriteWindow.update
update_all_runs = refl

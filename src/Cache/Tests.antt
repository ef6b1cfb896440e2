-- ===== src/Cache/Tests.antt =====
-- Runs of libnkvdb/cache.cpp, and instances of the theorems about it.
use nkvdb.Prelude.{ℕ, ◌-◌, ◌≡◌, refl, List, [], ◌∷◌, ◌++◌, arith, take, min, if◌then◌else◌}
use nkvdb.Meas.{Meas, empty, check_past_time}
use nkvdb.Cache.{Cache, make_cache, append_array, store_all, store_one}
use nkvdb.Cache.Current.{no_values, write_all}
use nkvdb.Cache.Content.{IsValid, contents, young, stale, append_array_lem, make_cache-IsValid}

abbrev at_time : ℕ → Meas
at_time t = record empty { id = 1; time = t }

abbrev two_room : Cache
unfolding make_cache
two_room = make_cache 2

two_room-IsValid : IsValid two_room
unfolding make_cache
two_room-IsValid = (make_cache-IsValid 2 (omega arith)).0

abbrev three : List Meas
three = at_time 7 ∷ at_time 1 ∷ at_time 9 ∷ []

-- The second measurement is too old, and the third has no room.
append_array_lem_example :
    let taken = take (min 3 (two_room.max_size - two_room.size)) three in
    let (c, cur, r) = append_array 10 three 5 two_room no_values in
    IsValid c
    × (contents c ≡ contents two_room ++ young 10 5 taken)
    × (cur ≡ (if two_room.has_storage then write_all (young 10 5 taken) no_values else no_values))
    × (r.writed ≡ min 3 (two_room.max_size - two_room.size))
    × (r.ignored ≡ stale 10 5 taken)
append_array_lem_example = append_array_lem 10 5 three two_room no_values two_room-IsValid

append_array_runs : contents (append_array 10 three 5 two_room no_values).0 ≡ at_time 7 ∷ []
unfolding make_cache append_array store_all store_one check_past_time
append_array_runs = refl

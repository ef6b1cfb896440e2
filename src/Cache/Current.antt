-- ===== src/Cache/Current.antt =====
-- class CurValuesCache of include/cache.h and libnkvdb/cache.cpp. Its `std::map` is a function.
use nkvdb.Prelude.{
  ℕ, ◌≡◌, refl, List, [], ◌∷◌, Option, none, some, ◌==◌, if◌then◌else◌, arith, length,
}
use nkvdb.Meas.{Meas, empty}

abbrev pub CurValues : Type 0
CurValues = ℕ → Option Meas

abbrev pub no_values : CurValues
no_values id = none

-- `m_values[v.id] = v`.
unfoldable pub write_value : Meas → CurValues → CurValues
write_value v cur id = if id == v.id then some v else cur id

abbrev or_empty : Option Meas → Meas
or_empty none = empty
or_empty (some m) = m

unfoldable pub read_value : List ℕ → CurValues → List Meas
read_value [] cur = []
read_value (id ∷ ids) cur = or_empty (cur id) ∷ read_value ids cur

-- The last measurement of an id in a run of writes, or else the one before the run.
unfoldable pub last_of : ℕ → List Meas → Option Meas → Option Meas
last_of id [] old = old
last_of id (m ∷ ms) old = last_of id ms (if id == m.id then some m else old)

unfoldable pub write_all : List Meas → CurValues → CurValues
write_all [] cur = cur
write_all (m ∷ ms) cur = write_all ms (write_value m cur)

-- After a run of writes to the current values, the value of an id is the last measurement of the
-- run with that id, or what stood there before when the run has none.
pub write_all-last_of :
    (id : ℕ) (ms : List Meas) (cur : CurValues) → write_all ms cur id ≡ last_of id ms (cur id)
unfolding write_all last_of write_value
write_all-last_of id [] cur = refl
write_all-last_of id (m ∷ ms) cur = write_all-last_of id ms (write_value m cur)

pub length-read_value : (ids : List ℕ) (cur : CurValues) → length (read_value ids cur) ≡ length ids
unfolding read_value
length-read_value [] cur = refl
length-read_value (id ∷ ids) cur = ground (arith, length-read_value ids cur)

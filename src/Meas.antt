-- ===== src/Meas.antt =====
-- include/meas.h, libnkvdb/meas.cpp and include/common.h: a measurement, its value bytes, the result
-- of an append, and the test of a measurement's age.
pub mod Laws
mod Tests
use nkvdb.Prelude.{
  ℕ, ◌+◌, ◌-◌, List, [], ◌∷◌, ◌++◌, Option, none, some, Bool, true, length, take, drop, replicate,
  leb, ltb, ◌==◌, if◌then◌else◌, sub64,
}

-- `Value` is `uint8_t[16]`.
abbrev pub value_bytes : ℕ
value_bytes = 16

-- `struct Meas`: the value array with the count of its bytes in use.
pub record Meas : Type 0 where
  pub id : ℕ
  pub time : ℕ
  pub source : ℕ
  pub flag : ℕ
  pub value : List ℕ
  pub size : ℕ

-- `Meas::empty`: the constructor fills the object with zero bytes.
abbrev pub empty : Meas
empty = record { id = 0; time = 0; source = 0; flag = 0; value = replicate value_bytes 0; size = 0 }

-- `setValue(v)`, for the object representation `v` of a T. Writing past the array is undefined.
unfoldable pub set_value : List ℕ → Meas → Option Meas
set_value v m =
    if ltb value_bytes (length v)
    then none
    else some (record m { size = length v; value = v ++ drop (length v) m.value })

-- `readValue<T>()`, for a T of `width` bytes: `size` bytes are copied over a zeroed T. Copying past
-- the T or from behind the array is undefined.
unfoldable pub read_value : ℕ → Meas → Option (List ℕ)
read_value width m =
    if ltb width m.size
    then none
    else if ltb value_bytes m.size
    then none
    else some (take m.size m.value ++ replicate (width - m.size) 0)

-- `struct append_result`, a default one, and its `+`.
pub record AppendResult : Type 0 where
  pub writed : ℕ
  pub ignored : ℕ

abbrev pub no_append : AppendResult
no_append = record { writed = 0; ignored = 0 }

infixl 65 ◌⊕◌
abbrev pub ◌⊕◌ : AppendResult → AppendResult → AppendResult
a ⊕ b = record { writed = a.writed + b.writed; ignored = a.ignored + b.ignored }

-- `checkPastTime`, the clock's answer being an argument; the difference is of `uint64_t`.
unfoldable pub check_past_time : ℕ → ℕ → ℕ → Bool
check_past_time now t past_time = if past_time == 0 then true else leb (sub64 now t) past_time

-- `MetaStorage::append(const MeasList&)`: the elements one by one, over the storage's own `append`.
module _ {S : Type 0} (append : Meas → S → S × AppendResult) where
  abbrev append_loop : List Meas → AppendResult → S → S × AppendResult
  append_loop [] result s = (s, result)
  append_loop (m ∷ ml) result s = let (s', res) = append m s in append_loop ml (result ⊕ res) s'

  unfoldable pub append_list : List Meas → S → S × AppendResult
  append_list ml s = append_loop ml no_append s

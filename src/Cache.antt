-- ===== src/Cache.antt =====
-- include/cache.h and libnkvdb/cache.cpp: one cache of measurements (class Cache).
pub mod Current
pub mod Content
pub mod Resize
mod Tests
use nkvdb.Prelude.{
  ℕ, ◌+◌, Bool, true, false, List, [], ◌∷◌, length, set, take, replicate, select, ltb, ◌==◌,
  if◌then◌else◌, in_interval, sub64,
}
use nkvdb.Meas.{Meas, empty, AppendResult, no_append, check_past_time}
use Current.{CurValues, write_value}

-- `m_meases` is an array of `m_max_size` objects; `has_storage` says that `m_ds` is not null.
pub record Cache : Type 0 where
  pub max_size : ℕ
  pub meases : List Meas
  pub size : ℕ
  pub index : ℕ
  pub sync : Bool
  pub has_storage : Bool

unfoldable pub make_cache : ℕ → Cache
make_cache size = record {
  max_size = size;
  meases = replicate size empty;
  size = 0;
  index = 0;
  sync = false;
  has_storage = false;
}

unfoldable pub is_full : Cache → Bool
is_full c = c.size == c.max_size

unfoldable pub clear : Cache → Cache
clear c = record c { size = 0; index = 0 }

unfoldable pub sync_begin : Cache → Cache
sync_begin c = record c { sync = true }

unfoldable pub sync_complete : Cache → Cache
sync_complete c = record c { sync = false }

unfoldable pub set_storage : Cache → Cache
set_storage c = record c { has_storage = true }

-- `Cache::append(const Meas&, Time)`. The write is in range while `m_index` is below the length.
unfoldable pub append : ℕ → Meas → ℕ → Cache → Cache × AppendResult
unfolding is_full
append now value past_time c =
    if check_past_time now value.time past_time
    then if is_full c then (c, no_append) else (
      record c { meases = set c.meases c.index value; index = c.index + 1; size = c.size + 1 },
      record { writed = 1; ignored = 0 },
    )
    else (c, record { writed = 1; ignored = 1 })

-- One round of the loop of `Cache::append(PMeas, size_t, Time)`: the cache, the current values of
-- its storage, and `res.ignored`.
unfoldable pub store_one : ℕ → ℕ → Meas → Cache × CurValues × ℕ → Cache × CurValues × ℕ
store_one now past_time value (c, cur, ignored) =
    if check_past_time now value.time past_time
    then (
      record c { meases = set c.meases c.index value; size = c.size + 1; index = c.index + 1 },
      (if c.has_storage then write_value value cur else cur),
      ignored,
    )
    else (c, cur, ignored + 1)

-- The loop of `append(PMeas, size_t)`, during which the clock says `now`.
unfoldable pub store_all : ℕ → ℕ → List Meas → Cache × CurValues × ℕ → Cache × CurValues × ℕ
store_all now past_time [] s = s
store_all now past_time (m ∷ ms) s = store_all now past_time ms (store_one now past_time m s)

-- `to_write`, how many of `n` measurements there is room for.
array_room : Cache → ℕ → ℕ
array_room c n =
    let cap = sub64 c.max_size c.size in if ltb n cap then n else if cap == n then n else cap

-- `Cache::append(PMeas, size_t, Time)`, the list being the `size` measurements from `begin`.
unfoldable pub append_array :
    ℕ → List Meas → ℕ → Cache → CurValues → Cache × CurValues × AppendResult
unfolding array_room
append_array now ms past_time c cur =
    let to_write = array_room c (length ms) in
    let (c', cur', ignored) = store_all now past_time (take to_write ms) (c, cur, 0) in
    (c', cur', record { writed = to_write; ignored = ignored })

-- `Cache::readInterval`: the first `m_index` elements.
unfoldable pub read_interval : ℕ → ℕ → Cache → List Meas
read_interval from to c = select (λ m. in_interval from to m.time) (take c.index c.meases)

-- `Cache::setSize`.
unfoldable pub set_size : ℕ → Cache → Cache
set_size sz c =
    if sz == c.max_size
    then c
    else record c { meases = replicate sz empty; max_size = sz; size = sz }

-- ===== src/Cache/Content.antt =====
-- The content of a cache of libnkvdb/cache.cpp, and what its operations do to it.
use nkvdb.Prelude.{
  ℕ, zero, suc, ◌+◌, ◌-◌, ◌≤◌, ◌<◌, ◌≡◌, refl, ap, not, List, [], ◌∷◌, ◌++◌, length, length-set,
  length-replicate, set, take, select, ◌==◌, if◌then◌else◌, arith, word, min, Bool-cases, inl, inr,
}
use mathlib.Core.List.{append-nil, append_assoc}
use nkvdb.Meas.{Meas, empty, check_past_time}
use nkvdb.Cache.Current.{CurValues, write_value, write_all}
use nkvdb.Cache.{
  clear, Cache, make_cache, append, is_full, store_one, store_all, append_array, array_room,
}

-- The elements in use.
abbrev pub contents : Cache → List Meas
contents c = take c.index c.meases

pub record IsValid (c : Cache) : Type 0 where
  pub array : length c.meases ≡ c.max_size
  pub counted : c.size ≡ c.index
  pub fits : c.size ≤ c.max_size
  pub small : c.max_size < word

take-set {ℓ} :
    {A : Type ℓ} (xs : List A) (i : ℕ) (v : A)
    → i < length xs
    → take (suc i) (set xs i v) ≡ take i xs ++ v ∷ []
take-set [] i v h = absurd (omega arith)
take-set (x ∷ xs) zero v h = refl
take-set (x ∷ xs) (suc i) v h = ground (arith, take-set xs i v)

length-take {ℓ} : {A : Type ℓ} (n : ℕ) (xs : List A) → n ≤ length xs → length (take n xs) ≡ n
length-take zero xs h = refl
length-take (suc n) [] h = absurd (omega arith)
length-take (suc n) (x ∷ xs) h = ap suc (length-take n xs (omega arith))

pub length-contents : (c : Cache) → IsValid c → length (contents c) ≡ c.size
length-contents c v = omega (arith, length-take c.index c.meases (omega arith))

-- The measurements that are young enough, and how many are not.
abbrev pub young : ℕ → ℕ → List Meas → List Meas
young now past_time = select (λ m. check_past_time now m.time past_time)

abbrev pub stale : ℕ → ℕ → List Meas → ℕ
stale now past_time ms = length (select (λ m. not (check_past_time now m.time past_time)) ms)

-- Adding one measurement to a valid cache: a measurement too old is counted as written and
-- ignored; a full cache takes nothing and says so; otherwise it stands at the end.
pub append_lem :
    (now past_time : ℕ) (m : Meas) (c : Cache)
    → IsValid c
    → let (c', r) = append now m past_time c in
      IsValid c'
      × (contents c' ≡ (
          if check_past_time now m.time past_time
          then (if is_full c then contents c else contents c ++ m ∷ [])
          else contents c))
      × (r.writed
          ≡ (if check_past_time now m.time past_time then (if is_full c then 0 else 1) else 1))
      × (r.ignored ≡ (if check_past_time now m.time past_time then 0 else 1))
unfolding append is_full
append_lem now past_time m c v =
    ground (arith, length-set c.meases c.index m, take-set c.meases c.index m)

-- What a run of stores leaves: the young ones in order at the end, each of them also among the
-- current values if the cache knows its storage, and the others counted.
record Stored (now past_time : ℕ) (ms : List Meas) (c : Cache) (cur : CurValues) (k : ℕ)
    (r : Cache × CurValues × ℕ) : Type 0 where
  valid : IsValid r.0
  content : contents r.0 ≡ contents c ++ young now past_time ms
  current : r.1 ≡ (if c.has_storage then write_all (young now past_time ms) cur else cur)
  count : r.2 ≡ k + stale now past_time ms
  room : r.0.max_size ≡ c.max_size

store_all-Stored :
    (now past_time : ℕ) (ms : List Meas) (c : Cache) (cur : CurValues) (k : ℕ)
    → IsValid c
    → c.size + length ms ≤ c.max_size
    → Stored now past_time ms c cur k (store_all now past_time ms (c, cur, k))
unfolding store_all store_one write_all
store_all-Stored now past_time [] c cur k v h = record {
  valid = v;
  content = rw append-nil;
  current = ground arith;
  count = omega arith;
  room = refl;
}
store_all-Stored now past_time (m ∷ ms) c cur k v h =
    elim (Bool-cases (check_past_time now m.time past_time)) [
      | inl e ↦ ground (
        arith,
        length-set c.meases c.index m,
        take-set c.meases c.index m,
        append_assoc (contents c) (m ∷ []) (young now past_time ms),
        store_all-Stored now past_time ms
            (record c { meases = set c.meases c.index m; size = c.size + 1; index = c.index + 1 })
            (if c.has_storage then write_value m cur else cur) k,
      )
      | inr e ↦ ground (arith, store_all-Stored now past_time ms c cur (k + 1))
    ]

array_room-eq-min : (c : Cache) (n : ℕ) → IsValid c → array_room c n ≡ min n (c.max_size - c.size)
unfolding array_room
array_room-eq-min c n v = ground arith

-- Adding an array to a valid cache takes as many of its measurements as there is room for. Of
-- these the young ones are appended in order and, if the cache knows its storage, become the
-- current values of their ids in that order; the result tells how many were taken and how many
-- of those were too old.
pub append_array_lem :
    (now past_time : ℕ) (ms : List Meas) (c : Cache) (cur : CurValues)
    → IsValid c
    → let taken = take (min (length ms) (c.max_size - c.size)) ms in
      let (c', cur', r) = append_array now ms past_time c cur in
      IsValid c'
      × (contents c' ≡ contents c ++ young now past_time taken)
      × (cur' ≡ (if c.has_storage then write_all (young now past_time taken) cur else cur))
      × (r.writed ≡ min (length ms) (c.max_size - c.size))
      × (r.ignored ≡ stale now past_time taken)
unfolding append_array
append_array_lem now past_time ms c cur v =
    let n : ℕ = min (length ms) (c.max_size - c.size) in
    let st =
      store_all-Stored now past_time (take n ms) c cur 0 v
        (omega (arith, length-take n ms (omega arith))) in
    rw (array_room-eq-min c (length ms) v)
      (st.valid, st.content, st.current, refl, omega (arith, st.count))

-- A new cache is valid and holds nothing.
pub make_cache-IsValid :
    (n : ℕ) → n < word → IsValid (make_cache n) × (contents (make_cache n) ≡ [])
unfolding make_cache
make_cache-IsValid n h = (
  record { array = length-replicate n empty; counted = refl; fits = omega arith; small = h },
  refl,
)

-- Clearing a valid cache keeps its array and leaves it valid and without content.
pub clear-IsValid :
    (c : Cache)
    → IsValid c
    → IsValid (clear c) × (contents (clear c) ≡ []) × (is_full (clear c) ≡ (c.max_size == 0))
unfolding clear is_full
clear-IsValid c v = ground arith

-- What an append leaves of a cache's mark and size.
pub append-same :
    (now past_time : ℕ) (m : Meas) (c : Cache)
    → ((append now m past_time c).0.sync ≡ c.sync)
      × ((append now m past_time c).0.max_size ≡ c.max_size)
unfolding append is_full
append-same now past_time m c = ground arith

store_all-same :
    (now past_time : ℕ) (ms : List Meas) (s : Cache × CurValues × ℕ)
    → ((store_all now past_time ms s).0.sync ≡ s.0.sync)
      × ((store_all now past_time ms s).0.max_size ≡ s.0.max_size)
unfolding store_all store_one
store_all-same now past_time [] s = (refl, refl)
store_all-same now past_time (m ∷ ms) s =
    ground (arith, store_all-same now past_time ms (store_one now past_time m s))

pub append_array-same :
    (now past_time : ℕ) (ms : List Meas) (c : Cache) (cur : CurValues)
    → ((append_array now ms past_time c cur).0.sync ≡ c.sync)
      × ((append_array now ms past_time c cur).0.max_size ≡ c.max_size)
unfolding append_array
append_array-same now past_time ms c cur =
    store_all-same now past_time (take (array_room c (length ms)) ms) (c, cur, 0)

-- ===== src/Page/Layout/ReadBack.antt =====
-- `read` of libnkvdb/page.cpp after a store.
use nkvdb.Prelude.{
  ℕ, zero, suc, ◌+◌, ◌-◌, ◌≤◌, ◌<◌, ◌≡◌, refl, ap, List, [], ◌∷◌, ◌++◌, some, length, take, drop,
  replicate, get_or, arith, length-append, length-replicate, sub64,
}
use mathlib.Core.List.{append_assoc}
use native.Mathlib.Nat.{add-zero}
use nkvdb.Prelude.Result.{ok}
use nkvdb.Meas.{Meas, value_bytes}
use nkvdb.Page.{Page, InternalMeas, load, read, read_bytes, write_bytes}
use nkvdb.Page.Append.{store}
use nkvdb.Page.Layout.{IsSound, HasRoom, value_pos-store, write_pos-store}

drop-cons : (k : ℕ) (xs : List ℕ) → k < length xs → drop k xs ≡ get_or xs k 0 ∷ drop (k + 1) xs
drop-cons k [] h = absurd (omega arith)
drop-cons zero (x ∷ xs) h = refl
drop-cons (suc k) (x ∷ xs) h =
    let e : suc k + 1 ≡ suc (k + 1) = omega arith in rw e (drop-cons k xs (omega arith))

write_bytes_inside :
    (at n k : ℕ) (src : List ℕ) (bytes : ℕ → ℕ)
    → k < n
    → write_bytes at n src bytes (at + k) ≡ get_or src k 0
unfolding write_bytes
write_bytes_inside at n k src bytes h = let e : at + k - at ≡ k = omega arith in ground (arith, e)

read_bytes-write_bytes_self :
    (at n k r : ℕ) (src : List ℕ) (bytes : ℕ → ℕ)
    → k + r ≤ n
    → n ≤ length src
    → read_bytes (at + k) r (write_bytes at n src bytes) ≡ take r (drop k src)
unfolding read_bytes
read_bytes-write_bytes_self at n k zero src bytes h g = refl
read_bytes-write_bytes_self at n k (suc r) src bytes h g =
    let e : at + k + 1 ≡ at + (k + 1) = omega arith in
    rw (
      e,
      drop-cons k src (omega arith),
      read_bytes-write_bytes_self at n (k + 1) r src bytes (omega arith) g,
      write_bytes_inside at n k src bytes (omega arith),
    )

read_bytes-write_bytes_after :
    (a r at n : ℕ) (src : List ℕ) (bytes : ℕ → ℕ)
    → at + n ≤ a
    → read_bytes a r (write_bytes at n src bytes) ≡ read_bytes a r bytes
unfolding read_bytes write_bytes
read_bytes-write_bytes_after a zero at n src bytes h = refl
read_bytes-write_bytes_after a (suc r) at n src bytes h =
    ground (arith, read_bytes-write_bytes_after (a + 1) r at n src bytes)

length-read_bytes : (a n : ℕ) (bytes : ℕ → ℕ) → length (read_bytes a n bytes) ≡ n
unfolding read_bytes
length-read_bytes a zero bytes = refl
length-read_bytes a (suc n) bytes = ap suc (length-read_bytes (a + 1) n bytes)

-- The bytes of the new value, read where they were put.
bytes-store :
    (m : Meas) (p : Page)
    → m.size ≤ length m.value
    → read_bytes (store m p).header.write_value_pos m.size (store m p).bytes ≡ take m.size m.value
unfolding store
bytes-store m p h = rw add-zero at (
    read_bytes-write_bytes_self (sub64 p.header.write_value_pos m.size) m.size 0 m.size m.value
      p.bytes (omega arith) h)

-- What is read of a stored measurement: its fields, its value's bytes in use, then zeros.
abbrev pub read_back : Meas → Meas
read_back m = record m { value = take m.size m.value ++ replicate (value_bytes - m.size) 0 }

zeros-append : (n k : ℕ) → replicate n 0 ++ replicate k 0 ≡ replicate {A = ℕ} (n + k) 0
zeros-append zero k = let e : zero + k ≡ k = omega arith in rw e
zeros-append (suc n) k =
    let e : suc n + k ≡ suc (n + k) = omega arith in
    rw e (ap (λ (zs : List ℕ). 0 ∷ zs) (zeros-append n k))

padded :
    (xs : List ℕ) (n : ℕ)
    → length xs ≡ n
    → n ≤ 8
    → (xs ++ replicate (8 - n) 0)
        ++ drop (length (xs ++ replicate (8 - n) 0)) (replicate value_bytes 0)
      ≡ xs ++ replicate (value_bytes - n) 0
padded xs n h k =
    let l : length (xs ++ replicate (8 - n) 0) ≡ 8 =
      omega (arith, length-append xs (replicate (8 - n) 0), length-replicate {A = ℕ} (8 - n) 0) in
    let e : 8 - n + 8 ≡ value_bytes - n = omega arith in
    rw (l, append_assoc xs (replicate (8 - n) 0) (replicate 8 0), zeros-append (8 - n) 8, e)

load_lem :
    (im : InternalMeas) (bytes : ℕ → ℕ)
    → im.size ≤ 8
    → load im bytes
      ≡ ok (record {
        id = im.id;
        time = im.time;
        source = im.source;
        flag = im.flag;
        value = read_bytes im.value_pos im.size bytes ++ replicate (value_bytes - im.size) 0;
        size = im.size;
      })
unfolding load
load_lem im bytes h = ground (
  arith,
  padded (read_bytes im.value_pos im.size bytes) im.size,
  length-read_bytes im.value_pos im.size bytes,
  length-append (read_bytes im.value_pos im.size bytes) (replicate (8 - im.size) 0),
  length-replicate {A = ℕ} (8 - im.size) 0,
)

-- On a sound page with room for a measurement, whose value has at most eight bytes: once it is
-- stored, it is read at the position at which it was stored.
pub read-store_new :
    (m : Meas) (p : Page)
    → IsSound p
    → HasRoom m p
    → m.size ≤ 8
    → m.size ≤ length m.value
    → read p.header.write_pos (store m p) ≡ ok (some (read_back m))
unfolding read store
read-store_new m p s r z h =
    ground (
      arith,
      load_lem ((store m p).records p.header.write_pos) (store m p).bytes,
      bytes-store m p h,
    )

record-store_old :
    (m : Meas) (p : Page) (i : ℕ) → i < p.header.write_pos → (store m p).records i ≡ p.records i
unfolding store
record-store_old m p i h = ground arith

earlier_bytes :
    (m : Meas) (p : Page) (a n : ℕ)
    → (store m p).header.write_value_pos + m.size ≤ a
    → read_bytes a n (store m p).bytes ≡ read_bytes a n p.bytes
unfolding store
earlier_bytes m p a n h =
    read_bytes-write_bytes_after a n (sub64 p.header.write_value_pos m.size) m.size m.value p.bytes
      h

-- The value of an earlier record is copied from the same bytes.
load_cong :
    (im : InternalMeas) (b c : ℕ → ℕ)
    → read_bytes im.value_pos im.size b ≡ read_bytes im.value_pos im.size c
    → load im b ≡ load im c
unfolding load
load_cong im b c e = rw e

load-store_old :
    (m : Meas) (p : Page) (i : ℕ)
    → IsSound p
    → HasRoom m p
    → i < p.header.write_pos
    → load ((store m p).records i) (store m p).bytes ≡ load (p.records i) p.bytes
load-store_old m p i s r h = rw (record-store_old m p i h) (
    load_cong (p.records i) (store m p).bytes p.bytes (
      earlier_bytes m p (p.records i).value_pos (p.records i).size
        (omega (arith, value_pos-store m p s r, (s.behind i h).0))))

-- On a sound page with room for a measurement: after it is stored, the measurements at the
-- positions before are read as before.
pub read-store_old :
    (m : Meas) (p : Page) (i : ℕ)
    → IsSound p
    → HasRoom m p
    → i < p.header.write_pos
    → read i (store m p) ≡ read i p
unfolding read
read-store_old m p i s r h = ground (arith, load-store_old m p i s r h, write_pos-store m p)

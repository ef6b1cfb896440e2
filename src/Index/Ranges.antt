-- ===== src/Index/Ranges.antt =====
-- The positions that `findInIndex` of libnkvdb/index.cpp finds, behind the joined records.
use nkvdb.Prelude.{
  ℕ, zero, suc, ◌+◌, ◌≡◌, refl, List, [], ◌∷◌, ◌++◌, arith, if◌then◌else◌, Bool-cases, inl, inr,
  length, ◌<◌,
}
use nkvdb.Prelude.Result.{ok}
use mathlib.Core.List.{append-nil, append_assoc}
use nkvdb.Index.{
  IndexRecord, IndexQuery, Index, Scan, scan_vals, take_record, admits, write_index_rec,
}

-- `n` positions from `p` on.
unfoldable pub range : ℕ → ℕ → List ℕ
range p zero = []
range p (suc n) = p ∷ range (p + 1) n

pub range-add : (p n m : ℕ) → range p (n + m) ≡ range p n ++ range (p + n) m
unfolding range
range-add p zero m =
    let e : zero + m ≡ m = omega arith in let f : p + zero ≡ p = omega arith in rw (e, f)
range-add p (suc n) m =
    let e : suc n + m ≡ suc (n + m) = omega arith in
    let f : p + suc n ≡ p + 1 + n = omega arith in rw (e, f, range-add (p + 1) n m)

-- The positions of records, in order.
unfoldable pub positions : List IndexRecord → List ℕ
positions [] = []
positions (r ∷ rs) = range r.pos r.count ++ positions rs

positions-append : (rs ss : List IndexRecord) → positions (rs ++ ss) ≡ positions rs ++ positions ss
unfolding positions
positions-append [] ss = refl
positions-append (r ∷ rs) ss =
    rw (positions-append rs ss, append_assoc (range r.pos r.count) (positions rs) (positions ss))

-- Those that the loops have found so far.
pub found : Scan → List ℕ
unfolding positions
found s = if s.first then positions s.result else positions (s.result ++ s.prev_value ∷ [])

joined :
    (rs : List IndexRecord) (prev rec : IndexRecord)
    → prev.pos + prev.count ≡ rec.pos
    → positions (rs ++ record prev { count = prev.count + rec.count } ∷ [])
      ≡ positions (rs ++ prev ∷ []) ++ range rec.pos rec.count
unfolding positions
joined rs prev rec e =
    rw
      (
        positions-append rs (record prev { count = prev.count + rec.count } ∷ []),
        positions-append rs (prev ∷ []),
      )
      (simp (range-add, append-nil, append_assoc, e))

pub positions-snoc :
    (rs : List IndexRecord) (rec : IndexRecord)
    → positions (rs ++ rec ∷ []) ≡ positions rs ++ range rec.pos rec.count
unfolding positions
positions-snoc rs rec = rw (positions-append rs (rec ∷ [])) (simp append-nil)

found-take_record :
    (rec : IndexRecord) (s : Scan) → found (take_record rec s) ≡ found s ++ range rec.pos rec.count
unfolding found take_record
found-take_record rec s = ground (
  arith,
  positions-snoc s.result rec,
  positions-snoc (s.result ++ s.prev_value ∷ []) rec,
  joined s.result s.prev_value rec,
)

-- The records of a leaf that the query admits.
pub admitted : IndexQuery → List (ℕ × IndexRecord) → List IndexRecord
admitted q [] = []
admitted q (kv ∷ kvs) = if admits q kv.1 then kv.1 ∷ admitted q kvs else admitted q kvs

-- Going through the records of a leaf adds the positions of the admitted ones to those found, in
-- order, each once: joining records loses none and makes none up.
pub found-scan_vals :
    (q : IndexQuery) (kvs : List (ℕ × IndexRecord)) (s : Scan)
    → found (scan_vals q kvs s) ≡ found s ++ positions (admitted q kvs)
unfolding scan_vals admitted positions
found-scan_vals q [] s = rw append-nil
found-scan_vals q (kv ∷ kvs) s = elim (Bool-cases (admits q kv.1)) [
  | inl e ↦ rw e (
      rw (found-scan_vals q kvs (take_record kv.1 s), found-take_record kv.1 s)
        (append_assoc (found s) (range kv.1.pos kv.1.count) (positions (admitted q kvs))))
  | inr e ↦ rw e (found-scan_vals q kvs s)
]

-- While the list of pending records has room, a record is put at its end.
pub write_index_rec_room :
    (fuel : ℕ) (rec : IndexRecord) (ix : Index)
    → length ix.pending < ix.capacity
    → write_index_rec fuel rec ix ≡ ok (record ix { pending = ix.pending ++ rec ∷ [] })
unfolding write_index_rec
write_index_rec_room fuel rec ix h = ground arith

-- ===== src/Index/Filters.antt =====
-- Which records `findInIndex` of libnkvdb/index.cpp passes over.
use nkvdb.Prelude.{ℕ, ◌≤◌, ◌<◌, ◌≡◌, [], ◌∷◌, arith, true, false, ◌↔◌}
use nkvdb.Index.{IndexRecord, IndexQuery, check_interval, admits}

-- The test of a record's times passes exactly if they meet the interval of the query.
pub check_interval_lem :
    (rec : IndexRecord) (from to : ℕ)
    → rec.min_time ≤ rec.max_time
    → from ≤ to
    → (check_interval rec from to ≡ true) ↔ ((rec.min_time ≤ to) × (from ≤ rec.max_time))
unfolding check_interval
check_interval_lem rec from to h k = ground arith

-- A record whose ids reach from below to above the only id of the query is passed over, although
-- the id may be in it.
pub admits_between :
    (q : IndexQuery) (rec : IndexRecord) (id : ℕ)
    → q.ids ≡ id ∷ []
    → rec.min_id < id
    → id < rec.max_id
    → admits q rec ≡ false
unfolding admits
admits_between q rec id e h k = ground arith

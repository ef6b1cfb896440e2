-- ===== src/Index.antt =====
-- include/index.h and libnkvdb/index.cpp: the index of a page, a list of records not yet written
-- and a B+ tree of records under their first times. The tree's place, its root and its next free
-- node are the fields of the index file's header.
pub mod Ranges
pub mod Filters
mod Tests
use nkvdb.Prelude.{
  ℕ, zero, suc, ◌+◌, Bool, true, false, List, [], ◌∷◌, ◌++◌, ◌&&◌, ◌||◌, not, take, length, ltb,
  ◌==◌, if◌then◌else◌, in_interval, min, max,
}
use nkvdb.Prelude.Result.{Result, ok, err, no_fuel, ◌>>=◌}
use nkvdb.Bloom.{bloom_check}
use nkvdb.BTree.{BTree, insert, find_node, init_cache}
use nkvdb.BTree.Nodes.{Node}

pub record IndexRecord : Type 0 where
  pub pos : ℕ
  pub count : ℕ
  pub min_time : ℕ
  pub max_time : ℕ
  pub min_id : ℕ
  pub max_id : ℕ
  pub flg_fltr : ℕ
  pub src_fltr : ℕ

abbrev pub zero_record : IndexRecord
zero_record = record {
  pos = 0;
  count = 0;
  min_time = 0;
  max_time = 0;
  min_id = 0;
  max_id = 0;
  flg_fltr = 0;
  src_fltr = 0;
}

-- `tree_N`.
abbrev pub tree_n : ℕ
tree_n = 10

abbrev pub IndexTree : Type 0
IndexTree = BTree IndexRecord

-- `pending` is `m_cache` up to `m_cache_pos`, and `capacity` is `m_cache.size()`.
pub record Index : Type 0 where
  pub pending : List IndexRecord
  pub capacity : ℕ
  pub tree : IndexTree

-- A new index file, of `setFileName`, and the cache of the constructor.
unfoldable pub make_index : ℕ → ℕ → Index
make_index capacity nodes = record {
  pending = [];
  capacity = capacity;
  tree = record {
    cache = init_cache zero_record tree_n;
    cache_size = nodes;
    cache_pos = 2;
    root = 1;
  };
}

-- `checkInterval`, whose last two tests are the same one.
unfoldable pub check_interval : IndexRecord → ℕ → ℕ → Bool
check_interval rec from to =
    in_interval from to rec.min_time
    || in_interval from to rec.max_time
    || in_interval rec.min_time rec.max_time from
    || in_interval rec.min_time rec.max_time from

-- The variables of the loops of `findInIndex`.
pub record Scan : Type 0 where
  pub first : Bool
  pub prev_value : IndexRecord
  pub result : List IndexRecord

-- A query; `ids` empty stands for all ids, and a zero flag or source for all of them.
pub record IndexQuery : Type 0 where
  pub ids : List ℕ
  pub source : ℕ
  pub flag : ℕ
  pub from : ℕ
  pub to : ℕ

abbrev pub min_element : List ℕ → ℕ
min_element [] = 0
min_element (x ∷ []) = x
min_element (x ∷ y ∷ ys) = min x (min_element (y ∷ ys))

abbrev pub max_element : List ℕ → ℕ
max_element [] = 0
max_element (x ∷ xs) = max x (max_element xs)

abbrev is_empty : List ℕ → Bool
is_empty [] = true
is_empty (x ∷ xs) = false

-- A record taken by the query: it goes into the previous one if its positions follow on.
unfoldable pub take_record : IndexRecord → Scan → Scan
take_record rec s =
    if s.first
    then record s { first = false; prev_value = rec }
    else if s.prev_value.pos + s.prev_value.count == rec.pos
    then record s { prev_value = record (s.prev_value) { count = s.prev_value.count + rec.count } }
    else record s { result = s.result ++ s.prev_value ∷ []; prev_value = rec }

-- Whether a record is taken.
unfoldable pub admits : IndexQuery → IndexRecord → Bool
unfolding check_interval
admits q rec =
    let min_id = min_element q.ids in
    let max_id = max_element q.ids in
    if not (q.flag == 0) && not (rec.flg_fltr == 0) && not (bloom_check rec.flg_fltr q.flag)
    then false
    else if not (q.source == 0)
        && not (rec.src_fltr == 0)
        && not (bloom_check rec.src_fltr q.source)
    then false
    else check_interval rec q.from q.to
      && (is_empty q.ids
          || in_interval min_id max_id rec.min_id
          || in_interval min_id max_id rec.max_id)

-- The loop over the values of a leaf.
unfoldable pub scan_vals : IndexQuery → List (ℕ × IndexRecord) → Scan → Scan
unfolding take_record admits
scan_vals q [] s = s
scan_vals q (kv ∷ kvs) s = scan_vals q kvs (if admits q kv.1 then take_record kv.1 s else s)

-- The loop over the leaves, from the one at `w` to the one whose id is `stop`.
unfoldable pub scan_leaves : ℕ → IndexQuery → ℕ → ℕ → IndexTree → Scan → Result Scan
unfolding scan_vals
scan_leaves zero q w stop t s = err no_fuel
scan_leaves (suc fuel) q w stop t s =
    let node = t.cache w in
    let s' = scan_vals q (take node.vals_size node.vals) s in
    let rest = scan_leaves fuel q node.next stop t s' in
    if not (node.id == stop) || s.first then (if node.next == 0 then ok s' else rest) else ok s

-- `fuel` bounds the height of the tree and the number of its leaves.
module _ (fuel : ℕ) where
  pub insert_all : List IndexRecord → IndexTree → Result IndexTree
  insert_all [] t = ok t
  insert_all (rec ∷ recs) t = insert zero_record tree_n fuel rec.min_time rec t >>= insert_all recs

  unfoldable pub flush : Index → Result Index
  unfolding insert_all
  flush ix = elim ix.pending [
    | [] ↦ ok ix
    | rec ∷ recs ↦ do
      t ← insert_all (rec ∷ recs) ix.tree
      ok (record ix { pending = []; tree = record t { root = (t.cache t.root).id } })
  ]

  unfoldable pub write_index_rec : IndexRecord → Index → Result Index
  write_index_rec rec ix = do
    ix' ← if length ix.pending == ix.capacity then flush ix else ok ix
    ok (record ix' { pending = ix'.pending ++ rec ∷ [] })

  -- `findInIndex`: the records found, those that follow on joined, and the flushed index.
  unfoldable pub find_in_index : IndexQuery → Index → Result (List IndexRecord × Index)
  unfolding flush scan_leaves
  find_in_index q ix = do
    ix' ← flush ix
    w ← find_node zero_record tree_n fuel q.from ix'.tree
    v ← find_node zero_record tree_n fuel q.to ix'.tree
    s ←
        scan_leaves fuel q w (ix'.tree.cache v).id ix'.tree
          (record { first = true; prev_value = zero_record; result = [] })
    ok ((if s.first then s.result else s.result ++ s.prev_value ∷ []), ix')

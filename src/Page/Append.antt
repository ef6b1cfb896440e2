-- ===== src/Page/Append.antt =====
-- The two `append` functions of libnkvdb/page.cpp.
use nkvdb.Prelude.{
  ℕ, ◌+◌, ◌-◌, ◌%◌, List, [], ◌∷◌, ◌&&◌, not, length, get_or, ◌==◌, if◌then◌else◌, sub64,
}
use nkvdb.Prelude.Result.{Result, ok, assertion, ◌>>=◌, ◌>>◌, ensure}
use nkvdb.Bloom.{bloom_add}
use nkvdb.Meas.{Meas, empty, AppendResult, no_append}
use nkvdb.WriteWindow.{update}
use nkvdb.Index.{Index, IndexRecord, write_index_rec}
use nkvdb.Page.{Page, is_full, update_min_max, write_bytes}

-- What both functions do with a measurement, besides the index and the times of the header: the
-- window, the filters, the value's bytes, its record, and the write position. Records and bytes are
-- one memory in the source, so that this is what happens on a sound page with room
-- (Page.Layout.IsSound and HasRoom); elsewhere a value may overwrite records.
unfoldable pub store : Meas → Page → Page
unfolding write_bytes
store m p =
    let h = p.header in
    let window' = update m p.window in
    let value_pos' = sub64 h.write_value_pos m.size in
    record p {
      window = window';
      bytes = write_bytes value_pos' m.size m.value p.bytes;
      records = λ i.
          if i == h.write_pos
          then record {
            id = m.id;
            time = m.time;
            source = m.source;
            flag = m.flag;
            size = m.size;
            value_pos = value_pos';
          }
          else p.records i;
      header = record h {
        write_window_size = length window';
        id_fltr = bloom_add h.id_fltr m.id;
        flag_fltr = bloom_add h.flag_fltr m.flag;
        src_fltr = bloom_add h.src_fltr m.source;
        write_value_pos = value_pos';
        write_pos = h.write_pos + 1;
      };
    }

-- The index record of one measurement. Nothing sets its two filters: `flg` and `src` are what
-- happens to stand there.
abbrev pub single_record : ℕ → ℕ → Meas → Page → IndexRecord
single_record flg src m p = record {
  pos = p.header.write_pos;
  count = 1;
  min_time = m.time;
  max_time = m.time;
  min_id = m.id;
  max_id = m.id;
  flg_fltr = flg;
  src_fltr = src;
}

abbrev pub timed_for : Meas → Page → Page
timed_for m p = record p { header = update_min_max m.time p.header }

abbrev pub one_added : Page → Index → Result (Page × AppendResult)
one_added p ix = ok (record p { index = ix }, record { writed = 1; ignored = 0 })

-- `append(const Meas&)`.
unfoldable pub append : ℕ → ℕ → ℕ → Meas → Page → Result (Page × AppendResult)
unfolding store
append fuel flg src m p =
    let p' = store m (timed_for m p) in
    let added = write_index_rec fuel (single_record flg src m p) p'.index >>= one_added p' in
    do
      ensure (p.header.readers_count == 0) assertion
      if is_full p then ok (p, no_append) else added

-- The variables of the loop of `append(PMeas, size_t)`.
pub record Batch : Type 0 where
  pub page : Page
  pub i : ℕ
  pub start : ℕ
  pub pos_begin : ℕ
  pub flg : ℕ
  pub src : ℕ
  pub writed : ℕ

-- The index record of a full hundred, whose ids are set from times.
unfoldable pub block_record : List Meas → Batch → IndexRecord
block_record begin b = record {
  pos = b.pos_begin;
  count = 100;
  min_time = (get_or begin b.start empty).time;
  max_time = (get_or begin (b.i - 1) empty).time;
  min_id = (get_or begin b.start empty).time;
  max_id = (get_or begin (b.i - 1) empty).time;
  flg_fltr = b.flg;
  src_fltr = b.src;
}

-- The index record of the rest.
unfoldable pub rest_record : List Meas → Batch → IndexRecord
rest_record begin b = record {
  pos = b.pos_begin;
  count = b.i - b.start;
  min_time = (get_or begin b.start empty).time;
  max_time = (get_or begin (b.i - 1) empty).time;
  min_id = (get_or begin b.start empty).id;
  max_id = (get_or begin (b.i - 1) empty).id;
  flg_fltr = b.flg;
  src_fltr = b.src;
}

-- One round: both filters of the block are built from the id.
unfoldable pub batch_store : Meas → Batch → Batch
unfolding store
batch_store value b =
    let flg' = bloom_add b.src value.id in
    record b {
      page = store value b.page;
      flg = flg';
      src = bloom_add flg' value.id;
      writed = b.writed + 1;
    }

-- The variables after the record of a hundred has gone to the index.
abbrev pub after_block : Batch → Index → Batch
after_block b ix = record b {
  page = record (b.page) { index = ix };
  pos_begin = b.pos_begin + 100;
  start = b.i;
  flg = 0;
  src = 0;
}

abbrev pub next_round : Batch → Batch
next_round b = record b { i = b.i + 1 }

unfoldable pub batch_step : ℕ → List Meas → Meas → Batch → Result Batch
unfolding batch_store block_record
batch_step fuel begin value b =
    let b' = batch_store value b in
    let block = write_index_rec fuel (block_record begin b') b'.page.index >>= λ ix.
    ok (next_round (after_block b' ix)) in
    if not (b.i == 0) && b.i % 100 == 0 then block else ok (next_round b')

unfoldable pub batch_loop : ℕ → List Meas → List Meas → Batch → Result Batch
unfolding batch_step
batch_loop fuel begin [] b = ok b
batch_loop fuel begin (m ∷ ms) b =
    if is_full b.page then ok b else batch_step fuel begin m b >>= batch_loop fuel begin ms

-- The header's times, from the first and the last measurement written.
unfoldable pub batch_times : List Meas → ℕ → Page → Page
batch_times begin writed p =
    let h =
      update_min_max (get_or begin (writed - 1) empty).time
        (update_min_max (get_or begin 0 empty).time p.header) in
    if writed == 0 then p else record p { header = h }

-- What follows the loop: the last index record, and the times.
unfoldable pub batch_end : ℕ → List Meas → Batch → Result (Page × AppendResult)
unfolding rest_record batch_times
batch_end fuel begin b = do
  ix ←
      if b.start == b.i
      then ok b.page.index
      else write_index_rec fuel (rest_record begin b) b.page.index
  ok (
    batch_times begin b.writed (record (b.page) { index = ix }),
    record { writed = b.writed; ignored = 0 },
  )

-- The variables at the start of the loop.
abbrev pub batch_begin : Page → Batch
batch_begin p = record {
  page = p;
  i = 0;
  start = 0;
  pos_begin = p.header.write_pos;
  flg = 0;
  src = 0;
  writed = 0;
}

-- `append(PMeas, size_t)`.
unfoldable pub append_array : ℕ → List Meas → Page → Result (Page × AppendResult)
unfolding batch_loop batch_end
append_array fuel begin p = batch_loop fuel begin begin (batch_begin p) >>= batch_end fuel begin

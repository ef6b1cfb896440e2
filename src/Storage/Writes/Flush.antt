-- ===== src/Storage/Writes/Flush.antt =====
-- `flush_and_stop` of libnkvdb/storage.cpp, and the `pause_work` after it, bring all that was appended
-- into the pages.
use nkvdb.Prelude.{
  ◌⊎◌, ◌+◌, ◌-◌, refl, ℕ, suc, ◌≤◌, length, Bool-cases, true, ◌≡◌, ap, ◌∙◌, inl, inr, Bool, false,
  List, [], ◌∷◌, arith,
}
use mathlib.Core.Path.{subst}
use nkvdb.Prelude.Result.{Result, Fault, err, ◌>>=◌, ok, >>=-eq-ok, ok-injective}
use nkvdb.Meas.{Meas}
use nkvdb.Cache.{Cache}
use nkvdb.Cache.Content.{contents}
use nkvdb.Storage.Writes.{
  Store, cache_at, is_writer_busy, write_some, write_cache, drain, flush_and_stop, pause_work,
}
use nkvdb.Storage.Writes.Keeping.{
  tally, IsPooled, IsWriter, IsKeeping, IsStore, NoneLive, total, queued,
}
use nkvdb.Storage.Writes.Thread.{Moved, write_some-Moved, then-Moved, write_some_shorter}
use nkvdb.Storage.Writes.Ends.{Failed, Ends, Ends-eq, map-Ends, then-Ends}
use nkvdb.Storage.Writes.Turns.{HasTurn, written-Ends, write_cache-Ends}
use nkvdb.Storage.Writes.Current.{write_cache-Swapped}

-- What the two leave: an empty queue, an empty current cache, and pages with all that was
-- on its way.
pub record Flushed {P : Type 0} (stored : P → List Meas → Type 0) (fits : Meas → Bool) (limit : ℕ)
    (kept : List Meas) (st st' : Store P) : Type 0 where
  pub kept' : List Meas
  pub store : IsStore stored fits limit kept' st'
  pub no_queue : st'.queue ≡ []
  pub emptied : contents (cache_at st'.current st') ≡ []
  pub balance : (f : Meas → Bool) → tally f kept' ≡ total f kept st

not_busy : (popped : Bool) (q : List ℕ) → is_writer_busy popped q ≡ false → length q ≤ 1
not_busy popped [] e = omega arith
not_busy popped (a ∷ []) e = omega arith
not_busy popped (a ∷ b ∷ rest) e = cc e

no_length : (q : List ℕ) → length q ≡ 0 → q ≡ []
no_length [] e = refl
no_length (a ∷ q) e = absurd (omega arith)

-- Before some look of the loop the thread has written `k` caches since the first.
abbrev pub HasLook : ℕ → List (ℕ × Bool) → Type 0
HasLook k [] = ⊥
HasLook k ((n, popped) ∷ polls) = (k ≤ n) ⊎ HasLook (k - n) polls

module _ {P : Type 0} {write : Cache → P → Result (Cache × P)} {stored : P → List Meas → Type 0}
    {fits : Meas → Bool} {limit : ℕ} (is_writer : IsWriter write stored fits limit) (fuel : ℕ) where
  -- The loop ends with the last cache in the queue at most, which is being written then.
  drain-Moved :
      (polls : List (ℕ × Bool)) (kept : List Meas) (st st' : Store P)
      → IsKeeping stored fits limit NoneLive kept st
      → drain write fuel polls st ≡ ok st'
      → Moved is_writer fuel kept st st' × (length st'.queue ≤ 1)
  unfolding drain
  drain-Moved [] kept st st' h e = cc e
  drain-Moved ((n, popped) ∷ polls) kept st st' h e =
      let look : Store P → Result (Store P) = λ s. elim (is_writer_busy popped s.queue) [
        | true ↦ drain write fuel polls s
        | false ↦ ok s
      ] in
      let (st₁, e₁, e₂) = >>=-eq-ok (write_some write fuel n st) look {y = st'} e in
      let m = write_some-Moved is_writer fuel n kept st st₁ h e₁ in
      elim (Bool-cases (is_writer_busy popped st₁.queue)) [
        | inl b ↦
            let (more, at_most) =
              drain-Moved polls m.kept' st₁ st' m.keeping (ground (arith, e₂, b)) in
            (then-Moved is_writer fuel m more, at_most)
        | inr b ↦
            let same = ok-injective st₁ st' (ground (arith, e₂, b)) in
            (subst (Moved is_writer fuel kept st) same m, ap_le same (not_busy popped st₁.queue b))
      ]
    where
      ap_le : {s s' : Store P} → s ≡ s' → length s.queue ≤ 1 → length s'.queue ≤ 1
      ap_le e = subst (λ s. length s.queue ≤ 1) e

  emptied-IsKeeping :
      (kept : List Meas) (st : Store P)
      → IsStore stored fits limit kept st
      → contents (cache_at st.current st) ≡ []
      → IsKeeping stored fits limit NoneLive kept st
  emptied-IsKeeping kept st h none_in =
      let k = h.keeping in
      record {
        fixed = k.fixed;
        fine = k.fine;
        marked = k.marked;
        empty = λ x u. elim (k.empty x u) [
          | inl y ↦ inr (ap (λ y. contents (cache_at y st)) y ∙ none_in)
          | inr y ↦ inr y
        ];
        distinct = k.distinct;
        stored_pages = k.stored_pages;
      }

  -- What is left when both return.
  returned-Flushed :
      (turns : List ℕ) (polls : List (ℕ × Bool)) (kept : List Meas) (st st₁ st' : Store P)
      → IsStore stored fits limit kept st
      → flush_and_stop write fuel turns polls st ≡ ok st₁
      → pause_work write fuel st₁ ≡ ok st'
      → (length st₁.queue ≤ 1) × Flushed stored fits limit kept st st'
  unfolding flush_and_stop pause_work
  returned-Flushed turns polls kept st st₁ st' h e stop =
      let (st₀, e₁, e₂) =
        >>=-eq-ok (write_cache write fuel turns st) (drain write fuel polls) {y = st₁} e in
      let w = write_cache-Swapped is_writer fuel turns kept st st₀ h e₁ in
      let (drained, at_most) =
        drain-Moved polls w.kept' st₀ st₁ (emptied-IsKeeping w.kept' st₀ w.store w.emptied) e₂ in
      let written =
        write_some-Moved is_writer fuel (length st₁.queue) drained.kept' st₁ st' drained.keeping
          stop in
      let m = then-Moved is_writer fuel drained written in
      let no_queue =
        no_length st'.queue
          (omega (arith, write_some_shorter write fuel (length st₁.queue) st₁ st' stop)) in
      let unmarked : (cache_at st'.current st').sync ≡ false =
        ap (λ a. (cache_at a st').sync) m.current ∙ m.unmarked st₀.current w.store.open_current in
      let none_in : contents (cache_at st'.current st') ≡ [] =
        elim (m.keeping.empty st'.current unmarked) [ inl x ↦ absurd x | inr x ↦ x ] in
      let k = m.keeping in
      (
        at_most,
        record {
          kept' = m.kept';
          store = record {
            keeping = record {
              fixed = k.fixed;
              fine = k.fine;
              marked = k.marked;
              empty = λ x u. elim (k.empty x u) [ inl y ↦ absurd y | inr y ↦ inr y ];
              distinct = k.distinct;
              stored_pages = k.stored_pages;
            };
            open_current = unmarked;
          };
          no_queue = no_queue;
          emptied = none_in;
          balance = λ f. omega (
            arith,
            m.balance f,
            w.balance f,
            ap (tally f) w.emptied,
            ap (queued f st'.pool.heap) no_queue,
          );
        },
      )

module _ {P : Type 0} {write : Cache → P → Result (Cache × P)} {stored : P → List Meas → Type 0}
    {fits : Meas → Bool} {limit : ℕ} (is_writer : IsWriter write stored fits limit) (fuel : ℕ) where
  drain-Ends :
      (polls : List (ℕ × Bool)) (k : ℕ) (kept : List Meas) (st : Store P)
      → IsKeeping stored fits limit NoneLive kept st
      → length st.queue ≤ k
      → HasLook k polls
      → Ends (Failed write stored fits limit) (λ st'. Unit {0}) (drain write (suc fuel) polls st)
  unfolding drain
  drain-Ends [] k kept st h l t = absurd t
  drain-Ends ((n, popped) ∷ polls) k kept st h l t =
      let look : Store P → Result (Store P) = λ s. elim (is_writer_busy popped s.queue) [
        | true ↦ drain write (suc fuel) polls s
        | false ↦ ok s
      ] in
      then-Ends (write_some write (suc fuel) n st) look (written-Ends is_writer fuel n kept st h)
        (λ st₁ e shorter. elim (Bool-cases (is_writer_busy popped st₁.queue)) [
          | inl b ↦
              let m = write_some-Moved is_writer (suc fuel) n kept st st₁ h e in
              let more : HasLook (k - n) polls = elim t [
                | inl d ↦
                    let none_left = no_length st₁.queue (omega (arith, shorter)) in
                    absurd (ground (arith, b, none_left))
                | inr d ↦ d
              ] in
              Ends-eq (ground (arith, b))
                (drain-Ends polls (k - n) m.kept' st₁ m.keeping (omega (arith, shorter)) more)
          | inr b ↦ inl (st₁, ground (arith, b), tt)
        ])

  -- For a storage as IsStore describes it (its pool does not change its size) whose pool has its
  -- caches, and a writer as IsWriter describes it: if the thread has a turn in the wait for a free
  -- cache, and before some look of the loop it has written as many caches as were in the queue and
  -- one more, then `flush_and_stop` and the `pause_work` after it return, or fail as the writer
  -- does on a cache and pages such as the storage gives it. When they return, `flush_and_stop` has
  -- left one cache at most in the hands of the thread, and after `pause_work` the queue and the
  -- current cache are empty, and the pages keep all that they and the caches had, each measurement
  -- as often; the storage is again as IsStore describes it.
  pub flush_and_stop-Flushed :
      (turns : List ℕ) (polls : List (ℕ × Bool)) (kept : List Meas) (st : Store P)
      → IsStore stored fits limit kept st
      → IsPooled st
      → HasTurn turns
      → HasLook (length st.queue + 1) polls
      → ((st₁ : Store P) × (st' : Store P) × (flush_and_stop write (suc fuel) turns polls st
            ≡ ok st₁)
          × (pause_work write (suc fuel) st₁ ≡ ok st')
          × (length st₁.queue ≤ 1)
          × Flushed stored fits limit kept st st')
        ⊎ ((fault : Fault) × ((flush_and_stop write (suc fuel) turns polls st
                >>= pause_work write (suc fuel))
              ≡ err fault)
            × Failed write stored fits limit fault)
  unfolding flush_and_stop pause_work
  flush_and_stop-Flushed turns polls kept st h p t l =
      let stop : Result (Store P) = flush_and_stop write (suc fuel) turns polls st in
      let stopped : Ends (Failed write stored fits limit)
          (λ st₁. (kept₁ : List Meas) × IsKeeping stored fits limit NoneLive kept₁ st₁) stop =
        then-Ends (write_cache write (suc fuel) turns st) (drain write (suc fuel) polls)
          (write_cache-Ends is_writer fuel turns kept st h p t)
          (λ st₀ e one_more.
            let w = write_cache-Swapped is_writer (suc fuel) turns kept st st₀ h e in
            let k = emptied-IsKeeping is_writer (suc fuel) w.kept' st₀ w.store w.emptied in
            map-Ends (drain write (suc fuel) polls st₀)
              (λ st₁ e₁ _.
                let (m, _) = drain-Moved is_writer (suc fuel) polls w.kept' st₀ st₁ k e₁ in
                (m.kept', m.keeping))
              (drain-Ends polls (length st.queue + 1) w.kept' st₀ k one_more l)) in
      elim stopped [
        | inr (fault, e, failed) ↦
            inr (fault, ap (λ r. r >>= pause_work write (suc fuel)) e, failed)
        | inl (st₁, e, (kept₁, k)) ↦
            elim (written-Ends is_writer fuel (length st₁.queue) kept₁ st₁ k) [
              | inr (fault, e', failed) ↦
                  inr (fault, ap (λ r. r >>= pause_work write (suc fuel)) e ∙ e', failed)
              | inl (st', e', _) ↦
                  let (at_most, flushed) =
                    returned-Flushed is_writer (suc fuel) turns polls kept st st₁ st' h e e' in
                  inl (st₁, st', e, e', at_most, flushed)
            ]
      ]

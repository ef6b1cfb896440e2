-- ===== src/Storage/Writes/Returns.antt =====
-- The appends of libnkvdb/storage.cpp end.
use nkvdb.Prelude.{
  ◌⊎◌, ℕ, suc, ◌≤◌, ◌<◌, ◌≡◌, refl, sym, ap, ◌∙◌, inl, inr, Bool, List, [], ◌∷◌, not, arith, ◌==◌,
  if◌then◌else◌, length, length-drop, drop, All, List-cases, Bool-cases,
}
use mathlib.Core.Path.{subst}
use nkvdb.Prelude.Result.{Result, Fault, ok, err, ◌>>=◌}
use nkvdb.Meas.{Meas, AppendResult, no_append, ◌⊕◌}
use nkvdb.Cache.{Cache, is_full}
use nkvdb.Cache.Content.{contents, append_array_lem, stale, length-contents}
use nkvdb.Storage.Writes.{Store, cache_at, write_cache, append_rest, append_all}
use nkvdb.Storage.Writes.Keeping.{IsWriter, IsStore}
use nkvdb.Storage.Writes.Current.{write_cache-Swapped}
use nkvdb.Storage.Writes.Balance.{Appended, AllFit}
use nkvdb.Storage.Writes.Keeping.{IsPooled}
use nkvdb.Storage.Writes.Ends.{Failed, Ends, Ends-eq, map-Ends, then-Ends}
use nkvdb.Storage.Writes.Turns.{HasTurn, write_cache-Ends}
use nkvdb.Storage.Writes.Arrays.{fed, taken, fed-Appended, append_all-Appended}

module _ {P : Type 0} {write : Cache → P → Result (Cache × P)} {stored : P → List Meas → Type 0}
    {fits : Meas → Bool} {limit : ℕ} (is_writer : IsWriter write stored fits limit) (fuel : ℕ) where
  -- A storage that can go on.
  record GoesOn (kept : List Meas) (st st' : Store P) : Type 0 where
    kept' : List Meas
    store : IsStore stored fits limit kept' st'
    pooled : IsPooled st'
    past : st'.past_time ≡ st.past_time
    room : (cache_at st'.current st').size < (cache_at st'.current st').max_size

  swapped-GoesOn :
      (turns : List ℕ) (kept : List Meas) (st : Store P)
      → IsStore stored fits limit kept st
      → IsPooled st
      → HasTurn turns
      → Ends
          (Failed write stored fits limit)
          (GoesOn kept st)
          (write_cache write (suc fuel) turns st)
  swapped-GoesOn turns kept st h p t =
      map-Ends (write_cache write (suc fuel) turns st)
        (λ st' e _.
          let w = write_cache-Swapped is_writer (suc fuel) turns kept st st' h e in
          let fine = w.store.keeping.fine st'.current in
          let none_in : length (contents (cache_at st'.current st')) ≡ 0 = ap length w.emptied in
          record {
            kept' = w.kept';
            store = w.store;
            pooled = w.pooled p;
            past = w.past;
            room = omega (
              arith,
              none_in,
              length-contents (cache_at st'.current st') fine.valid,
              fine.some_room,
            );
          })
        (write_cache-Ends is_writer fuel turns kept st h p t)

  no_more : (n : ℕ) (ms : List Meas) → n ≡ length ms → drop n ms ≡ []
  no_more n ms e = elim (List-cases (drop n ms)) [
    | inl d ↦ d
    | inr (x, xs, d) ↦ absurd (omega (arith, length-drop n ms, e, ap length d))
  ]

  -- With room in the current cache each round takes at least one measurement.
  append_rest-Ends :
      (rounds : List (List ℕ)) (now : ℕ) (ms kept : List Meas) (result : AppendResult)
      (st : Store P)
      → IsStore stored fits limit kept st
      → IsPooled st
      → AllFit fits now st.past_time ms
      → (cache_at st.current st).size < (cache_at st.current st).max_size
      → All HasTurn rounds
      → length ms ≤ length rounds
      → Ends
          (Failed write stored fits limit)
          (λ r. Unit {0})
          (append_rest write (suc fuel) rounds now ms result st)
  unfolding append_rest
  append_rest-Ends rounds now [] kept result st h p fit room t l = inl ((st, result), refl, tt)
  append_rest-Ends [] now (m ∷ ms) kept result st h p fit room t l = absurd (omega arith)
  append_rest-Ends (turns ∷ rounds) now (m ∷ ms) kept result st h p fit room (t, ts) l =
      let begin = m ∷ ms in
      let w = (taken is_writer (suc fuel) now begin st).writed in
      let (a, _, _, fit₁) = fed-Appended is_writer (suc fuel) now begin kept st h fit in
      let st₁ = fed is_writer (suc fuel) now begin st in
      let (_, _, _, writed, _) =
        append_array_lem now st.past_time begin (cache_at st.current st) st.cur_values
          (h.keeping.fine st.current).valid in
      let result₁ = result ⊕ taken is_writer (suc fuel) now begin st in
      let next : Store P → Result (Store P × AppendResult) =
        append_rest write (suc fuel) rounds now (drop w begin) result₁ in
      let swap : Bool → Result (Store P) =
        λ c. if not c then write_cache write (suc fuel) turns st₁ else ok st₁ in
      elim (Bool-cases (w == length begin)) [
        | inl b ↦
            let end : drop w begin ≡ [] = no_more w begin (ground (arith, b)) in
            inl (
              (st₁, result₁),
              ap (λ c. swap c >>= next) b
                  ∙ ap (λ xs. append_rest write (suc fuel) rounds now xs result₁ st₁) end,
              tt,
            )
        | inr b ↦
            let shorter : length (drop w begin) ≤ length rounds =
              omega (arith, length-drop w begin, writed, room) in
            Ends-eq (ap (λ c. swap c >>= next) b) (
              then-Ends (write_cache write (suc fuel) turns st₁) next
                (swapped-GoesOn turns a.kept' st₁ a.store p t)
                (λ st₂ e g.
                  append_rest-Ends rounds now (drop w begin) g.kept' result₁ st₂ g.store g.pooled
                    (subst (λ past. AllFit fits now past (drop w begin)) (sym (g.past ∙ a.past))
                      fit₁)
                    g.room ts shorter))
      ]

  -- For a storage as IsStore describes it (its pool does not change its size) whose pool has its
  -- caches, a writer as IsWriter describes it, and measurements that fit into a page or are too
  -- old: with as many rounds as there are measurements and one turn of the thread in each wait, the
  -- append of an array returns, or it fails as the writer does on a cache and pages such as the
  -- storage gives it. When it returns, it says that it wrote all and how many were too old; the
  -- others have come to what is on its way in caches and pages, each once, and nothing else was
  -- lost or added.
  pub append_all-returns :
      (turns : List ℕ) (rounds : List (List ℕ)) (now : ℕ) (ms kept : List Meas) (st : Store P)
      → IsStore stored fits limit kept st
      → IsPooled st
      → AllFit fits now st.past_time ms
      → HasTurn turns
      → All HasTurn rounds
      → length ms ≤ length rounds
      → ((st' : Store P) × (r : AppendResult) × (append_all write (suc fuel) turns rounds now ms st
            ≡ ok (st', r))
          × Appended stored fits limit now ms kept st st'
          × (r.writed ≡ length ms)
          × (r.ignored ≡ stale now st.past_time ms))
        ⊎ ((fault : Fault) × (append_all write (suc fuel) turns rounds now ms st ≡ err fault)
            × Failed write stored fits limit fault)
  unfolding append_all is_full
  append_all-returns turns rounds now ms kept st h p fit t ts l =
      let c = cache_at st.current st in
      let rest : Store P → Result (Store P × AppendResult) =
        append_rest write (suc fuel) rounds now ms no_append in
      let swap : Bool → Result (Store P) =
        λ b. if b then write_cache write (suc fuel) turns st else ok st in
      let done : Ends (Failed write stored fits limit) (λ r. Unit {0})
          (append_all write (suc fuel) turns rounds now ms st) =
        elim (Bool-cases (is_full c)) [
          | inl b ↦ Ends-eq (ap (λ c. swap c >>= rest) b) (
              then-Ends (write_cache write (suc fuel) turns st) rest
                (swapped-GoesOn turns kept st h p t)
                (λ st₁ e g.
                  append_rest-Ends rounds now ms g.kept' no_append st₁ g.store g.pooled
                    (subst (λ past. AllFit fits now past ms) (sym g.past) fit) g.room ts l))
          | inr b ↦
              let room : c.size < c.max_size =
                ground (arith, b, (h.keeping.fine st.current).valid.fits) in
              Ends-eq (ap (λ c. swap c >>= rest) b)
                (append_rest-Ends rounds now ms kept no_append st h p fit room ts l)
        ] in
      elim done [
        | inl ((st', r), e, _) ↦
            let (a, writed, ignored) =
              append_all-Appended is_writer (suc fuel) turns rounds now ms kept st st' r h fit e in
            inl (st', r, e, a, writed, ignored)
        | inr failed ↦ inr failed
      ]

-- ===== src/Storage/Writes/Arrays.antt =====
-- The append of an array of libnkvdb/storage.cpp.
use nkvdb.Prelude.{
  ℕ, ◌+◌, ◌≤◌, ◌≡◌, refl, sym, ap, ◌∙◌, inl, inr, Bool, List, [], ◌∷◌, ◌++◌, not, arith, ◌==◌,
  if◌then◌else◌, length, length-drop, drop, take, Bool-cases,
}
use mathlib.Core.Path.{subst}
use nkvdb.Prelude.Result.{Result, ok, >>=-eq-ok, ok-injective}
use nkvdb.Meas.{Meas, AppendResult, no_append, ◌⊕◌}
use nkvdb.Cache.{Cache, is_full, append_array}
use nkvdb.Cache.Content.{contents, append_array_lem, young, stale, append_array-same}
use nkvdb.Storage.Writes.{Store, cache_at, put_at, write_cache, append_rest, append_all}
use nkvdb.Storage.Writes.Keeping.{IsWriter, IsStore}
use nkvdb.Storage.Writes.Current.{write_cache-Swapped}
use nkvdb.Storage.Writes.Balance.{
  young-cut, stale-cut, Appended, AllFit, grown, chain, swap-Appended,
}

module _ {P : Type 0} {write : Cache → P → Result (Cache × P)} {stored : P → List Meas → Type 0}
    {fits : Meas → Bool} {limit : ℕ} (is_writer : IsWriter write stored fits limit) (fuel : ℕ) where
  nothing-Appended :
      (now : ℕ) (kept : List Meas) (st : Store P)
      → IsStore stored fits limit kept st
      → Appended stored fits limit now [] kept st st
  nothing-Appended now kept st h = record {
    kept' = kept;
    store = h;
    balance = λ f. omega arith;
    past = refl;
  }

  -- A cache is given away on a condition.
  pub swap_if :
      (b : Bool) (turns : List ℕ) (now : ℕ) (kept : List Meas) (st st' : Store P)
      → IsStore stored fits limit kept st
      → (if b then write_cache write fuel turns st else ok st) ≡ ok st'
      → Appended stored fits limit now [] kept st st'
  swap_if b turns now kept st st' h e = elim (Bool-cases b) [
    | inl t ↦
        swap-Appended is_writer fuel now
          (write_cache-Swapped is_writer fuel turns kept st st' h (ground (arith, e, t)))
    | inr t ↦
        subst (Appended stored fits limit now [] kept st)
          (ok-injective st st' (ground (arith, e, t))) (nothing-Appended now kept st h)
  ]

  -- The state of the storage after the cache took what it has room for.
  abbrev pub fed : ℕ → List Meas → Store P → Store P
  fed now ms st =
      let (c, cur_values, r) =
        append_array now ms st.past_time (cache_at st.current st) st.cur_values in
      record (put_at st.current c st) { cur_values = cur_values }

  abbrev pub taken : ℕ → List Meas → Store P → AppendResult
  taken now ms st = (append_array now ms st.past_time (cache_at st.current st) st.cur_values).2

  pub fed-Appended :
      (now : ℕ) (ms kept : List Meas) (st : Store P)
      → IsStore stored fits limit kept st
      → AllFit fits now st.past_time ms
      → let w = (taken now ms st).writed in
        Appended stored fits limit now (take w ms) kept st (fed now ms st)
        × ((taken now ms st).ignored ≡ stale now st.past_time (take w ms))
        × (w ≤ length ms)
        × AllFit fits now st.past_time (drop w ms)
  fed-Appended now ms kept st h fit =
      let c = cache_at st.current st in
      let (valid, content, _, writed, ignored) =
        append_array_lem now st.past_time ms c st.cur_values (h.keeping.fine st.current).valid in
      let (sync, size) = append_array-same now st.past_time ms c st.cur_values in
      let w = (taken now ms st).writed in
      let cut = young-cut now st.past_time (λ m. not (fits m)) w ms in
      let res = append_array now ms st.past_time c st.cur_values in
      (
        grown is_writer fuel now (take w ms) kept st res.0 res.1 h (omega (arith, cut, fit)) valid
            (content ∙ ap (λ n. contents c ++ young now st.past_time (take n ms)) (sym writed)) sync
            size,
        ignored ∙ ap (λ n. stale now st.past_time (take n ms)) (sym writed),
        omega (arith, writed),
        omega (arith, cut, fit),
      )

  length-take_drop : (n : ℕ) (ms : List Meas) → n ≤ length ms → n + length (drop n ms) ≡ length ms
  length-take_drop n ms h = omega (arith, length-drop n ms)

  append_rest-Appended :
      (rounds : List (List ℕ)) (now : ℕ) (ms kept : List Meas) (result r : AppendResult)
      (st st' : Store P)
      → IsStore stored fits limit kept st
      → AllFit fits now st.past_time ms
      → append_rest write fuel rounds now ms result st ≡ ok (st', r)
      → Appended stored fits limit now ms kept st st'
        × (r.writed ≡ result.writed + length ms)
        × (r.ignored ≡ result.ignored + stale now st.past_time ms)
  unfolding append_rest
  append_rest-Appended rounds now [] kept result r st st' h fit e =
      let pair : ◌≡◌ {A = Store P × AppendResult} (st, result) (st', r) =
        ok-injective (st, result) (st', r) e in
      let same : result ≡ r = ap (λ (x : Store P × AppendResult). x.1) pair in
      (
        subst (Appended stored fits limit now [] kept st)
            (ap (λ (x : Store P × AppendResult). x.0) pair) (nothing-Appended now kept st h),
        omega (arith, ap (λ (x : AppendResult). x.writed) same),
        omega (arith, ap (λ (x : AppendResult). x.ignored) same),
      )
  append_rest-Appended [] now (m ∷ ms) kept result r st st' h fit e = cc e
  append_rest-Appended (turns ∷ rounds) now (m ∷ ms) kept result r st st' h fit e =
      let begin = m ∷ ms in
      let res = taken now begin st in
      let w = res.writed in
      let st₁ = fed now begin st in
      let (a, ignored, most, fit₁) = fed-Appended now begin kept st h fit in
      let swap : Result (Store P) =
        if not (w == length begin) then write_cache write fuel turns st₁ else ok st₁ in
      let (st₂, e₁, e₂) =
        >>=-eq-ok swap (append_rest write fuel rounds now (drop w begin) (result ⊕ res))
          {y = (st', r)} e in
      let s = swap_if (not (w == length begin)) turns now a.kept' st₁ st₂ a.store e₁ in
      let past = s.past ∙ a.past in
      let fit₂ : AllFit fits now st₂.past_time (drop w begin) =
        subst (λ past. AllFit fits now past (drop w begin)) (sym past) fit₁ in
      let (b, writed, stales) =
        append_rest-Appended rounds now (drop w begin) s.kept' (result ⊕ res) r st₂ st' s.store fit₂
          e₂ in
      let b₁ = chain is_writer fuel (drop w begin) s b (λ f past. omega arith) in
      (
        chain is_writer fuel begin a b₁ (λ f past. young-cut now past f w begin),
        omega (arith, writed, length-take_drop w begin most),
        omega (
          arith,
          stales,
          ignored,
          stale-cut now st.past_time w begin,
          ap (λ past. stale now past (drop w begin)) past,
        ),
      )

  -- An append of an array that returns says that it wrote all of it and how many were too old. The
  -- others have come to what is on its way in caches and pages, each once, and nothing else was
  -- lost or added, however the thread took its turns; and the storage can be appended to again.
  -- This is for a pool whose size does not change, and measurements that fit into a page.
  pub append_all-Appended :
      (turns : List ℕ) (rounds : List (List ℕ)) (now : ℕ) (ms kept : List Meas) (st st' : Store P)
      (r : AppendResult)
      → IsStore stored fits limit kept st
      → AllFit fits now st.past_time ms
      → append_all write fuel turns rounds now ms st ≡ ok (st', r)
      → Appended stored fits limit now ms kept st st'
        × (r.writed ≡ length ms)
        × (r.ignored ≡ stale now st.past_time ms)
  unfolding append_all
  append_all-Appended turns rounds now ms kept st st' r h fit e =
      let full = is_full (cache_at st.current st) in
      let swap : Result (Store P) = if full then write_cache write fuel turns st else ok st in
      let (st₁, e₁, e₂) =
        >>=-eq-ok swap (append_rest write fuel rounds now ms no_append) {y = (st', r)} e in
      let s = swap_if full turns now kept st st₁ h e₁ in
      let fit₁ = subst (λ past. AllFit fits now past ms) (sym s.past) fit in
      let (b, writed, stales) =
        append_rest-Appended rounds now ms s.kept' no_append r st₁ st' s.store fit₁ e₂ in
      (
        chain is_writer fuel ms s b (λ f past. omega arith),
        omega (arith, writed),
        omega (arith, stales, ap (λ past. stale now past ms) s.past),
      )

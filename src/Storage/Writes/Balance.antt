-- ===== src/Storage/Writes/Balance.antt =====
-- Nothing that is appended to a storage of libnkvdb/storage.cpp is lost or doubled on its way through
-- caches and pages.
use nkvdb.Prelude.{
  ℕ, zero, suc, ◌+◌, ◌≡◌, refl, sym, ap, ◌∙◌, inl, inr, Bool, List, [], ◌∷◌, ◌++◌, not, arith, ◌==◌,
  drop, take, Bool-cases,
}
use mathlib.Core.List.{append-nil}
use mathlib.Core.Path.{subst}
use nkvdb.Prelude.Result.{Result, ok, >>=-eq-ok, ok-injective}
use nkvdb.Meas.{Meas, AppendResult}
use nkvdb.Cache.{Cache, append}
use nkvdb.Cache.Current.{CurValues}
use nkvdb.Cache.Content.{contents, IsValid, append_lem, young, stale, append-same}
use nkvdb.Storage.Writes.{Store, cache_at, put_at, write_cache, append_one}
use nkvdb.Storage.Writes.Keeping.{tally, tally-append, IsFine, IsWriter, IsStore, total}
use nkvdb.Storage.Writes.Current.{Swapped, put_current-IsStore, write_cache-Swapped}

-- A list cut in two.
module _ (now past_time : ℕ) where
  pub young-cut :
      (f : Meas → Bool) (n : ℕ) (ms : List Meas)
      → tally f (young now past_time ms)
        ≡ tally f (young now past_time (take n ms)) + tally f (young now past_time (drop n ms))
  young-cut f zero ms = omega arith
  young-cut f (suc n) [] = omega arith
  young-cut f (suc n) (m ∷ ms) = ground (arith, young-cut f n ms)

  pub stale-cut :
      (n : ℕ) (ms : List Meas)
      → stale now past_time ms ≡ stale now past_time (take n ms) + stale now past_time (drop n ms)
  stale-cut zero ms = omega arith
  stale-cut (suc n) [] = omega arith
  stale-cut (suc n) (m ∷ ms) = ground (arith, stale-cut n ms)

-- What an append of `ms` leaves: what was young enough has come to what is on its way, the rest was
-- counted.
pub record Appended {P : Type 0} (stored : P → List Meas → Type 0) (fits : Meas → Bool)
    (limit now : ℕ) (ms : List Meas) (kept : List Meas) (st st' : Store P) : Type 0 where
  pub kept' : List Meas
  pub store : IsStore stored fits limit kept' st'
  pub balance :
      (f : Meas → Bool) → total f kept' st' ≡ total f kept st + tally f (young now st.past_time ms)
  pub past : st'.past_time ≡ st.past_time

-- No young measurement is unfit for a page.
abbrev pub AllFit : (Meas → Bool) → ℕ → ℕ → List Meas → Type 0
AllFit fits now past_time ms = tally (λ m. not (fits m)) (young now past_time ms) ≡ 0

module _ {P : Type 0} {write : Cache → P → Result (Cache × P)} {stored : P → List Meas → Type 0}
    {fits : Meas → Bool} {limit : ℕ} (is_writer : IsWriter write stored fits limit) (fuel : ℕ) where
  -- The current cache takes measurements at its end.
  pub grown :
      (now : ℕ) (ms kept : List Meas) (st : Store P) (c : Cache) (values : CurValues)
      → IsStore stored fits limit kept st
      → AllFit fits now st.past_time ms
      → IsValid c
      → contents c ≡ contents (cache_at st.current st) ++ young now st.past_time ms
      → c.sync ≡ (cache_at st.current st).sync
      → c.max_size ≡ (cache_at st.current st).max_size
      → Appended stored fits limit now ms kept st
          (record (put_at st.current c st) { cur_values = values })
  grown now ms kept st c values h fit valid content sync size =
      let old = h.keeping.fine st.current in
      let unfit : Meas → Bool = λ m. not (fits m) in
      let more : (f : Meas → Bool)
          → tally f (contents c)
            ≡ tally f (contents (cache_at st.current st)) + tally f (young now st.past_time ms) =
        λ f.
          ap (tally f) content
          ∙ tally-append f (contents (cache_at st.current st)) (young now st.past_time ms) in
      let fine : IsFine fits limit c = record {
        valid = valid;
        some_room = omega (arith, size, old.some_room);
        at_most = omega (arith, size, old.at_most);
        fitting = omega (arith, more unfit, old.fitting, fit);
      } in
      let (store, counts) = put_current-IsStore kept st c values h fine (sync ∙ h.open_current) in
      record {
        kept' = kept;
        store = store;
        balance = λ f. omega (arith, counts f, more f);
        past = refl;
      }

  -- One append after another.
  pub chain :
      {now : ℕ} {xs ys kept : List Meas} {st st₁ st' : Store P} (zs : List Meas)
      → (a : Appended stored fits limit now xs kept st st₁)
      → Appended stored fits limit now ys a.kept' st₁ st'
      → ((f : Meas → Bool) (past : ℕ)
          → tally f (young now past zs) ≡ tally f (young now past xs) + tally f (young now past ys))
      → Appended stored fits limit now zs kept st st'
  chain {now = now} {ys = ys} {st = st} zs a b cut = record {
    kept' = b.kept';
    store = b.store;
    balance = λ f. omega (
      arith,
      a.balance f,
      b.balance f,
      cut f st.past_time,
      ap (λ past. tally f (young now past ys)) a.past,
    );
    past = b.past ∙ a.past;
  }

  -- Giving a cache away appends nothing.
  pub swap-Appended :
      {kept : List Meas} {st st' : Store P} (now : ℕ)
      → Swapped stored fits limit kept st st'
      → Appended stored fits limit now [] kept st st'
  swap-Appended now w = record {
    kept' = w.kept';
    store = w.store;
    balance = λ f. omega (arith, w.balance f);
    past = w.past;
  }

  -- For a storage as IsStore describes it (its pool does not change its size), a writer as
  -- IsWriter describes it, and a measurement that fits into a page or is too old: an append of the
  -- measurement that returns says that it wrote one, and whether it was too old. If not, it is now
  -- among what is on its way in caches and pages, once, and nothing else of that was lost or
  -- added; the storage is again as IsStore describes it.
  pub append_one-Appended :
      (rounds : List (List ℕ)) (now : ℕ) (m : Meas) (kept : List Meas) (st st' : Store P)
      (r : AppendResult)
      → IsStore stored fits limit kept st
      → AllFit fits now st.past_time (m ∷ [])
      → append_one write fuel rounds now m st ≡ ok (st', r)
      → Appended stored fits limit now (m ∷ []) kept st st'
        × (r.writed ≡ 1)
        × (r.ignored ≡ stale now st.past_time (m ∷ []))
  unfolding append_one
  append_one-Appended [] now m kept st st' r h fit e = cc e
  append_one-Appended (turns ∷ rounds) now m kept st st' r h fit e =
      let c = cache_at st.current st in
      let res = append now m st.past_time c in
      let st₁ = put_at st.current res.0 st in
      let (valid, content, writed, ignored) =
        append_lem now st.past_time m c (h.keeping.fine st.current).valid in
      let (sync, size) = append-same now st.past_time m c in
      elim (Bool-cases (res.1.writed == 0)) [
        | inl z ↦
            let same : contents res.0 ≡ contents c ++ [] =
              ground (arith, z, content, writed, append-nil (contents c)) in
            let a = grown now [] kept st res.0 st.cur_values h refl valid same sync size in
            let (st₂, e₁, e₂) =
              >>=-eq-ok (write_cache write fuel turns st₁) (append_one write fuel rounds now m)
                {y = (st', r)} (ground (arith, e, z)) in
            let w =
              swap-Appended now
                (write_cache-Swapped is_writer fuel turns a.kept' st₁ st₂ a.store e₁) in
            let fit₂ : AllFit fits now st₂.past_time (m ∷ []) =
              subst (λ past. AllFit fits now past (m ∷ [])) (sym w.past) fit in
            let (b, one, counted) =
              append_one-Appended rounds now m w.kept' st₂ st' r w.store fit₂ e₂ in
            (
              chain (m ∷ []) a (chain (m ∷ []) w b (λ f past. omega arith)) (λ f past. omega arith),
              one,
              counted ∙ ap (λ past. stale now past (m ∷ [])) w.past,
            )
        | inr z ↦
            let all : contents res.0 ≡ contents c ++ young now st.past_time (m ∷ []) =
              ground (arith, z, content, writed, append-nil (contents c)) in
            let pair : ◌≡◌ {A = Store P × AppendResult} (st₁, res.1) (st', r) =
              ok-injective (st₁, res.1) (st', r) (ground (arith, e, z)) in
            let result : res.1 ≡ r = ap (λ (x : Store P × AppendResult). x.1) pair in
            (
              subst (Appended stored fits limit now (m ∷ []) kept st)
                  (ap (λ (x : Store P × AppendResult). x.0) pair)
                  (grown now (m ∷ []) kept st res.0 st.cur_values h fit valid all sync size),
              ap (λ (x : AppendResult). x.writed) (sym result) ∙ ground (arith, z, writed),
              ap (λ (x : AppendResult). x.ignored) (sym result) ∙ ground (arith, ignored),
            )
      ]

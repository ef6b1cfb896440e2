-- ===== src/Storage/Writes/Current.antt =====
-- The current cache of a storage of libnkvdb/storage.cpp: it is added to, and given to the thread.
use nkvdb.Prelude.{
  ℕ, ◌+◌, ◌≡◌, ◌≢◌, refl, sym, ap, ◌∙◌, inl, inr, Bool, true, false, List, [], ◌∷◌, ◌++◌, arith,
  ◌==◌, take, All, All-append, Bool-cases, ℕ_discrete,
}
use mathlib.Core.Path.{subst}
use nkvdb.Prelude.Result.{Result, ok, ok-injective}
use nkvdb.Meas.{Meas}
use nkvdb.Cache.{Cache, sync_begin}
use nkvdb.Cache.Content.{contents}
use nkvdb.Cache.Current.{CurValues}
use nkvdb.CachePool.{put_cache}
use nkvdb.Storage.Writes.{Store, cache_at, put_at, write_cache}
use nkvdb.Storage.Writes.Keeping.{
  IsIn, IsPooled, not_marked, tally, IsFine, IsWriter, queued, IsDistinct, IsKeeping, IsStore,
  total, NoneLive, gone, put_cache-same, put_cache-other, put_cache-all, queued-put, marked-put,
}
use nkvdb.Storage.Writes.Wait.{wait_cache-Ready}

IsDistinct-snoc :
    (q : List ℕ) (a : ℕ) → IsDistinct q → All (λ b. b ≢ a) q → IsDistinct (q ++ a ∷ [])
IsDistinct-snoc [] a d h = (tt, tt)
IsDistinct-snoc (b ∷ q) a d h =
    (All-append (λ x. x ≢ b) q (a ∷ []) d.0 ((λ e. h.0 (sym e)), tt), IsDistinct-snoc q a d.1 h.1)

queued-snoc :
    (f : Meas → Bool) (heap : ℕ → Cache) (q : List ℕ) (a : ℕ)
    → queued f heap (q ++ a ∷ []) ≡ queued f heap q + tally f (contents (heap a))
queued-snoc f heap [] a = omega arith
queued-snoc f heap (b ∷ q) a = omega (arith, queued-snoc f heap q a)

abbrev pub shelved : {P : Type 0} → Store P → Store P
shelved st = record (put_at st.current (sync_begin (cache_at st.current st)) st) {
  queue = st.queue ++ st.current ∷ [];
}

IsFine-sync_begin :
    (fits : Meas → Bool) (limit : ℕ) (c : Cache)
    → IsFine fits limit c
    → IsFine fits limit (sync_begin c)
unfolding sync_begin
IsFine-sync_begin fits limit c h = record {
  valid = record {
    array = h.valid.array;
    counted = h.valid.counted;
    fits = h.valid.fits;
    small = h.valid.small;
  };
  some_room = h.some_room;
  at_most = h.at_most;
  fitting = h.fitting;
}

module _ {P : Type 0} {stored : P → List Meas → Type 0} {fits : Meas → Bool} {limit : ℕ} where
  -- A new state of the current cache.
  pub put_current-IsStore :
      (kept : List Meas) (st : Store P) (c : Cache) (values : CurValues)
      → IsStore stored fits limit kept st
      → IsFine fits limit c
      → c.sync ≡ false
      → IsStore stored fits limit kept (record (put_at st.current c st) { cur_values = values })
        × ((f : Meas → Bool)
            → total f kept (record (put_at st.current c st) { cur_values = values })
              ≡ gone f kept st + tally f (contents c))
  put_current-IsStore kept st c values h fine s =
      let a = st.current in
      let heap = st.pool.heap in
      let k = h.keeping in
      let at : put_cache a c heap a ≡ c = put_cache-same heap a c in
      let fresh = not_marked heap a st.queue h.open_current k.marked in
      (
        record {
          keeping = record {
            fixed = k.fixed;
            fine = put_cache-all heap a c (IsFine fits limit) fine k.fine;
            marked = marked-put heap a c st.queue fresh k.marked;
            empty = λ x y. elim (ℕ_discrete x a) [
              | yes e ↦ inl e
              | no n ↦
                  let old = put_cache-other heap a c x n in
                  elim (k.empty x (ap (λ (x : Cache). x.sync) (sym old) ∙ y)) [
                    | inl z ↦ inl z
                    | inr z ↦ inr (ap contents old ∙ z)
                  ]
            ];
            distinct = k.distinct;
            stored_pages = k.stored_pages;
          };
          open_current = ap (λ (x : Cache). x.sync) at ∙ s;
        },
        λ f. omega (arith, queued-put heap a c f st.queue fresh, ap (λ x. tally f (contents x)) at),
      )

  -- The current cache, marked and at the end of the queue.
  pub shelved-IsKeeping :
      (kept : List Meas) (st : Store P)
      → IsStore stored fits limit kept st
      → IsKeeping stored fits limit NoneLive kept (shelved st)
        × ((f : Meas → Bool) → gone f kept (shelved st) ≡ total f kept st)
  unfolding sync_begin
  shelved-IsKeeping kept st h =
      let a = st.current in
      let heap = st.pool.heap in
      let c = sync_begin (heap a) in
      let k = h.keeping in
      let at : put_cache a c heap a ≡ c = put_cache-same heap a c in
      let fresh = not_marked heap a st.queue h.open_current k.marked in
      (
        record {
          fixed = k.fixed;
          fine =
              put_cache-all heap a c (IsFine fits limit)
                (IsFine-sync_begin fits limit (heap a) (k.fine a)) k.fine;
          marked =
              All-append (λ b. (put_cache a c heap b).sync ≡ true) st.queue (a ∷ [])
                (marked-put heap a c st.queue fresh k.marked) (ap (λ (x : Cache). x.sync) at, tt);
          empty = λ x y. elim (ℕ_discrete x a) [
            | yes e ↦ absurd (
                cc
                  (sym y ∙ ap (λ x. (put_cache a c heap x).sync) e ∙ ap (λ (x : Cache). x.sync) at))
            | no n ↦
                let old = put_cache-other heap a c x n in
                elim (k.empty x (ap (λ (x : Cache). x.sync) (sym old) ∙ y)) [
                  | inl z ↦ absurd (n z)
                  | inr z ↦ inr (ap contents old ∙ z)
                ]
          ];
          distinct = IsDistinct-snoc st.queue a k.distinct fresh;
          stored_pages = k.stored_pages;
        },
        λ f. omega (
          arith,
          queued-snoc f (put_cache a c heap) st.queue a,
          queued-put heap a c f st.queue fresh,
          ap (λ x. tally f (contents x)) at,
        ),
      )

-- A storage whose current cache was given away, if it held anything.
pub record Swapped {P : Type 0} (stored : P → List Meas → Type 0) (fits : Meas → Bool) (limit : ℕ)
    (kept : List Meas) (st st' : Store P) : Type 0 where
  pub kept' : List Meas
  pub store : IsStore stored fits limit kept' st'
  pub emptied : contents (cache_at st'.current st') ≡ []
  pub balance : (f : Meas → Bool) → total f kept' st' ≡ total f kept st
  pub past : st'.past_time ≡ st.past_time
  pub pooled : IsPooled st → IsPooled st'

module _ {P : Type 0} {write : Cache → P → Result (Cache × P)} {stored : P → List Meas → Type 0}
    {fits : Meas → Bool} {limit : ℕ} (is_writer : IsWriter write stored fits limit) (fuel : ℕ) where
  pub write_cache-Swapped :
      (turns : List ℕ) (kept : List Meas) (st st' : Store P)
      → IsStore stored fits limit kept st
      → write_cache write fuel turns st ≡ ok st'
      → Swapped stored fits limit kept st st'
  unfolding write_cache
  write_cache-Swapped turns kept st st' h e =
      let c = cache_at st.current st in
      elim (Bool-cases (c.size == 0)) [
        | inl b ↦
            let none_in : contents c ≡ [] =
              let zero_size : c.index ≡ 0 =
                ground (arith, b, (h.keeping.fine st.current).valid.counted) in
              ap (λ n. take n c.meases) zero_size in
            subst (Swapped stored fits limit kept st) (ok-injective st st' (ground (arith, e, b)))
              (record {
                kept' = kept;
                store = h;
                emptied = none_in;
                balance = λ f. refl;
                past = refl;
                pooled = λ x. x;
              })
        | inr b ↦
            let (k, moved) = shelved-IsKeeping kept st h in
            let r =
              wait_cache-Ready is_writer fuel turns kept (shelved st) st' k
                (ground (arith, e, b)) in
            record {
              kept' = r.kept';
              store = r.store;
              emptied = r.emptied;
              balance = λ f. omega (arith, r.balance f, moved f, ap (tally f) r.emptied);
              past = r.past;
              pooled = λ x. r.pooled (
                  All-append (λ a. IsIn a st.pool.caches) st.queue (st.current ∷ []) x.1 (x.0, tt));
            }
      ]

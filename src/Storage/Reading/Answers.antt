-- ===== src/Storage/Reading/Answers.antt =====
-- What StorageReader of libnkvdb/storage.cpp reads from its pages.
use nkvdb.Prelude.{
  ℕ, zero, suc, ◌≡◌, refl, sym, ap, ◌∙◌, inl, inr, Bool, true, false, List, [], ◌∷◌, ◌++◌, Option,
  none, some, arith, if◌then◌else◌, Bool-cases,
}
use mathlib.Core.List.{append-nil, append_assoc}
use mathlib.Core.Path.{subst}
use nkvdb.Prelude.Result.{Result, ok, >>=-eq-ok, ok-injective, ◌>>=◌}
use nkvdb.Meas.{Meas}
use nkvdb.Query.Readers
use nkvdb.Query.Readers.{IntervalReader, TimePointReader, read_next_point}
use nkvdb.Manager.{Manager, PageName}
use nkvdb.Storage.Reading.{
  PageReader, interval, point, StorageReader, page_is_end, page_read_next, is_end, open_reader,
  next_reader, read_next, read_all,
}

module _ {R : Type 0} (end : R → Bool) (next : R → Result (R × List Meas)) where
  -- Reading a reader to its end.
  pub data Reads : R → List Meas → R → Type 0 where
    ended : {r : R} → end r ≡ true → Reads r [] r
    more :
        {r s q : R} {xs ys : List Meas}
        → end r ≡ false
        → next r ≡ ok (s, xs)
        → Reads s ys q
        → Reads r (xs ++ ys) q

  at_end :
      (r q : R) (ms : List Meas)
      → end r ≡ true
      → ◌≡◌ {A = Result (R × List Meas)} (ok (r, [])) (ok (q, ms))
      → Reads r ms q
  at_end r q ms t e =
      subst (λ (x : R × List Meas). Reads r x.1 x.0) (ok-injective (r, []) (q, ms) e) (ended t)

  pub read_all-Reads :
      (n : ℕ) (r q : R) (ms : List Meas) → read_all end next n r ≡ ok (q, ms) → Reads r ms q
  unfolding read_all
  read_all-Reads zero r q ms h = elim (Bool-cases (end r)) [
    | inl t ↦ at_end r q ms t (ground (arith, h, t))
    | inr t ↦ absurd (ground (arith, h, t))
  ]
  read_all-Reads (suc n) r q ms h = elim (Bool-cases (end r)) [
    | inl t ↦ at_end r q ms t (ground (arith, h, t))
    | inr t ↦
        let last : R × List Meas → R × List Meas → Result (R × List Meas) =
          λ s t. ok (t.0, s.1 ++ t.1) in
        let after : R × List Meas → Result (R × List Meas) =
          λ s. read_all end next n s.0 >>= last s in
        let ((s, xs), e₁, e₂) = >>=-eq-ok (next r) after {y = (q, ms)} (ground (arith, h, t)) in
        let ((z, ys), e₃, e₄) = >>=-eq-ok (read_all end next n s) (last (s, xs)) {y = (q, ms)} e₂ in
        let pair : ◌≡◌ {A = R × List Meas} (z, xs ++ ys) (q, ms) =
          ok-injective (z, xs ++ ys) (q, ms) e₄ in
        subst (λ (x : R × List Meas). Reads r x.1 x.0) pair (more t e₁ (read_all-Reads n s z ys e₃))
  ]

  pub Reads-read_all :
      (r q : R) (ms : List Meas)
      → Reads r ms q
      → (n : ℕ) × (read_all end next n r ≡ ok (q, ms)) × (end q ≡ true)
  unfolding read_all
  Reads-read_all r q ms (ended h) = (zero, ground (arith, h), h)
  Reads-read_all r q ms (more {s = s} {xs = xs} {ys = ys} h e rest) =
      let (n, g, f) = Reads-read_all s q ys rest in (suc n, ground (arith, h, e, g), f)

  pub Reads-nothing : (r q : R) (ms : List Meas) → Reads r ms q → end r ≡ true → ms ≡ []
  Reads-nothing r q ms (ended h) e = refl
  Reads-nothing r q ms (more h g rest) e = absurd (cc (sym h ∙ e))

-- A page's reader that is at its end reads nothing.
page_read_next_ended :
    (fuel size : ℕ) (c : PageReader)
    → page_is_end c ≡ true
    → page_read_next fuel size c ≡ ok (c, [])
unfolding nkvdb.Query.Readers.read_next read_next_point
page_read_next_ended fuel size (interval r) h = ground (arith, h)
page_read_next_ended fuel size (point r) h = ground (arith, h)

module _ (fuel size : ℕ) (m : Manager) where
  -- A storage's reader with these pages to come and this page's reader.
  abbrev at : StorageReader → List PageName → Option PageReader → StorageReader
  at r names current = record r { pages = names; current = current }

  abbrev PageReads : PageReader → List Meas → PageReader → Type 0
  PageReads = Reads page_is_end (page_read_next fuel size)

  abbrev StorageReads : StorageReader → List Meas → StorageReader → Type 0
  StorageReads = Reads is_end (read_next fuel size m)

  -- The step with a page's reader `c`.
  step :
      (r r₀ : StorageReader) (c d : PageReader) (xs : List Meas)
      → is_end r ≡ false
      → next_reader fuel m r ≡ ok (r₀, c)
      → page_read_next fuel size c ≡ ok (d, xs)
      → read_next fuel size m r
        ≡ ok (record r₀ { current = (if page_is_end d then none else some d) }, xs)
  unfolding read_next
  step r r₀ c d xs h e g = ground (arith, h, e, g)

  going :
      (r : StorageReader) (names : List PageName) (c : PageReader)
      → page_is_end c ≡ false
      → (is_end (at r names (some c)) ≡ false)
        × (next_reader fuel m (at r names (some c)) ≡ ok (at r names (some c), c))
  unfolding is_end next_reader
  going r [] c h = (h, refl)
  going r (x ∷ xs) c h = (refl, refl)

  -- One page is read to its end before the rest.
  page_first :
      (c d : PageReader) (ms ns : List Meas) (r r₀ q : StorageReader)
      → PageReads c ms d
      → is_end r ≡ false
      → next_reader fuel m r ≡ ok (r₀, c)
      → StorageReads (record r₀ { current = none }) ns q
      → StorageReads r (ms ++ ns) q
  page_first c d ms ns r r₀ q (ended t) h e rest =
      let g = step r r₀ c c [] h e (page_read_next_ended fuel size c t) in
      let done : read_next fuel size m r ≡ ok (record r₀ { current = none }, []) =
        ground (arith, g, t) in
      more h done rest
  page_first c d ms ns r r₀ q (more {s = s} {xs = xs} {ys = ys} t g page) h e rest =
      let k = step r r₀ c s xs h e g in
      elim (Bool-cases (page_is_end s)) [
        | inl b ↦
            let none_left : xs ++ ys ≡ xs =
              ap (λ zs. xs ++ zs)
                (Reads-nothing page_is_end (page_read_next fuel size) s d ys page b)
              ∙ append-nil xs in
            let done : read_next fuel size m r ≡ ok (record r₀ { current = none }, xs) =
              ground (arith, k, b) in
            rw none_left (more h done rest)
        | inr b ↦
            let (h', e') = going r₀ r₀.pages s b in
            let later =
              page_first s d ys ns (at r₀ r₀.pages (some s)) (at r₀ r₀.pages (some s)) q page h' e'
                rest in
            let done : read_next fuel size m r ≡ ok (at r₀ r₀.pages (some s), xs) =
              ground (arith, k, b) in
            rw (append_assoc xs ys ns) (more h done later)
      ]

  -- A page is opened, and its reader gives these measurements.
  pub record PageRead (r : StorageReader) (name : PageName) (ms : List Meas) : Type 0 where
    pub reader : PageReader
    pub opens : open_reader fuel m r name ≡ ok reader
    pub rounds : ℕ
    pub left : PageReader
    pub reads : read_all page_is_end (page_read_next fuel size) rounds reader ≡ ok (left, ms)

  -- The answers of several pages, one after the other.
  abbrev pub PagesRead : StorageReader → List PageName → List Meas → Type 0
  PagesRead r [] all = all ≡ []
  PagesRead r (name ∷ names) all =
      (ms : List Meas) × (rest : List Meas) × PageRead r name ms
      × PagesRead r names rest
      × (all ≡ ms ++ rest)

  opening :
      (r : StorageReader) (name : PageName) (names : List PageName) (c : PageReader)
      → open_reader fuel m r name ≡ ok c
      → (is_end (at r (name ∷ names) none) ≡ false)
        × (next_reader fuel m (at r (name ∷ names) none) ≡ ok (at r names none, c))
  unfolding is_end next_reader open_reader
  opening r name names c e = (refl, ground (arith, e))

  pages_Reads :
      (names : List PageName) (r : StorageReader) (all : List Meas)
      → PagesRead r names all
      → StorageReads (at r names none) all (at r [] none)
  unfolding is_end
  pages_Reads [] r all h = rw h (ended refl)
  pages_Reads (name ∷ names) r all (ms, rest, page, others, e) =
      let (h, g) = opening r name names page.reader page.opens in
      let one =
        read_all-Reads page_is_end (page_read_next fuel size) page.rounds page.reader page.left ms
          page.reads in
      rw e (
        page_first page.reader page.left ms rest (at r (name ∷ names) none) (at r names none)
          (at r [] none) one h g (pages_Reads names r rest others))

  -- If each page of a storage's reader, opened for reading, gives its reader, and this gives the page's
  -- answer in some number of calls of `readNext`, then `readAll` of the storage's reader ends
  -- too, with the answers of the pages one after the other, in the order in which the pages were
  -- added, and with no page left.
  pub read_all-PagesRead :
      (r : StorageReader) (all : List Meas)
      → r.current ≡ none
      → PagesRead r r.pages all
      → (n : ℕ) × (q : StorageReader) × (read_all is_end (read_next fuel size m) n r ≡ ok (q, all))
        × (is_end q ≡ true)
        × (q.pages ≡ [])
  read_all-PagesRead r all c h =
      let same : at r r.pages none ≡ r = λ i. record r { current = sym c i } in
      let reads : StorageReads r all (at r [] none) =
        subst (λ x. StorageReads x all (at r [] none)) same (pages_Reads r.pages r all h) in
      let (n, e, f) = Reads-read_all is_end (read_next fuel size m) r (at r [] none) all reads in
      (n, at r [] none, e, f, refl)

-- ===== src/Manager/Switch.antt =====
-- What `createNewPage` of libnkvdb/page_manager.cpp does to the pages.
use nkvdb.Prelude.{
  ℕ, zero, suc, ◌+◌, ◌%◌, ◌^◌, ◌≡◌, refl, sym, ap, ◌∙◌, inl, inr, [], ◌∷◌, ◌++◌, none, some, arith,
  Bool-cases, Option-cases, List-cases, true, false, length, ◌==◌, if◌then◌else◌,
}
use nkvdb.Prelude.Result.{Result, ok, >>=-eq-ok, ok-injective, ◌>>=◌}
use nkvdb.WriteWindow.Latest.{assign_lem}
use mathlib.Core.Path.{subst}
use nkvdb.Index.{Index, IndexTree, flush, insert_all}
use nkvdb.Page.{Page, close, flush_write_window}
use nkvdb.Page.Files.{create}
use nkvdb.Page.Files.Reopen.{closed, close_cases}
use nkvdb.Manager.{
  Manager, PageName, file_of, put_file, unique_name, close_current_page, take_over, create_new_page,
}

-- The name found is of no file.
unique_name-free :
    (rounds now suffix : ℕ) (m : Manager) (name : PageName)
    → unique_name rounds now suffix m ≡ ok name
    → file_of name m ≡ none
unfolding unique_name
unique_name-free zero now suffix m name e = cc e
unique_name-free (suc rounds) now suffix m name e =
    let first : PageName = record { time = now; suffix = suffix } in
    elim (Option-cases (file_of first m)) [
      | inl n ↦
          let same : first ≡ name = ok-injective first name (ground (arith, e, n)) in
          rw (sym same) n
      | inr (p, n) ↦
          unique_name-free rounds now ((suffix + 1) % 2 ^ 32) m name (ground (arith, e, n))
    ]

-- Closing a page leaves its records and values, and these parts of its header.
pub record KeepsContent (p q : Page) : Type 0 where
  pub records : q.records ≡ p.records
  pub bytes : q.bytes ≡ p.bytes
  pub write_pos : q.header.write_pos ≡ p.header.write_pos
  pub times : (q.header.min_time ≡ p.header.min_time) × (q.header.max_time ≡ p.header.max_time)

-- A mapped page `p` was closed, which left `q`: the mapping is gone, the marks of the header are
-- reset, the window stands in its file unless it has no measurements, and the index records that
-- waited were inserted into the tree.
pub record IsClosed (fuel : ℕ) (p q : Page) : Type 0 where
  pub content : KeepsContent p q
  pub unmapped : q.mapped ≡ false
  pub not_open : q.header.is_open ≡ false
  pub no_readers : q.header.readers_count ≡ 0
  pub window_size : q.header.write_window_size ≡ length p.window
  pub window_file : q.window_file ≡ (if length p.window == 0 then p.window_file else some p.window)
  pub flushed : flush fuel p.index ≡ ok q.index
  pub none_pending : q.index.pending ≡ []

closed-KeepsContent : (ix : Index) (p : Page) → KeepsContent p (closed ix p)
unfolding closed flush_write_window
closed-KeepsContent ix p = record {
  records = refl;
  bytes = refl;
  write_pos = refl;
  times = (refl, refl);
}

-- What a flush of the index leaves has nothing that waits.
pending-flush : (fuel : ℕ) (ix ix' : Index) → flush fuel ix ≡ ok ix' → ix'.pending ≡ []
unfolding flush
pending-flush fuel ix ix' e = elim (List-cases ix.pending) [
  | inl n ↦ ap (λ (x : Index). x.pending) (sym (ok-injective ix ix' (ground (arith, e, n)))) ∙ n
  | inr (rec, recs, n) ↦
      let done : IndexTree → Result Index =
        λ t. ok (record ix { pending = []; tree = record t { root = (t.cache t.root).id } }) in
      let (t, _, e₂) =
        >>=-eq-ok (insert_all fuel (rec ∷ recs) ix.tree) done {y = ix'} (ground (arith, e, n)) in
      ap (λ (x : Index). x.pending)
        (sym (
          ok-injective (record ix { pending = []; tree = record t { root = (t.cache t.root).id } })
            ix' e₂))
]

closed-IsClosed :
    (fuel : ℕ) (ix : Index) (p : Page) → flush fuel p.index ≡ ok ix → IsClosed fuel p (closed ix p)
unfolding closed flush_write_window
closed-IsClosed fuel ix p f = record {
  content = closed-KeepsContent ix p;
  unmapped = refl;
  not_open = refl;
  no_readers = refl;
  window_size = refl;
  window_file = refl;
  flushed = f;
  none_pending = pending-flush fuel p.index ix f;
}

close-IsClosed : (fuel : ℕ) (p q : Page) → close fuel p ≡ ok q → p.mapped ≡ true → IsClosed fuel p q
close-IsClosed fuel p q e m =
    let (ix, same, f) = close_cases fuel p q e m in
    subst (IsClosed fuel p) same (closed-IsClosed fuel ix p f)

pub close-KeepsContent : (fuel : ℕ) (p q : Page) → close fuel p ≡ ok q → KeepsContent p q
unfolding close
close-KeepsContent fuel p q e = elim (Bool-cases p.mapped) [
  | inl m ↦ (close-IsClosed fuel p q e m).content
  | inr m ↦
      let same : p ≡ q = ok-injective p q (ground (arith, e, m)) in
      subst (KeepsContent p) same
        (record { records = refl; bytes = refl; write_pos = refl; times = (refl, refl) })
]

no_current :
    (m : Manager) (name : PageName)
    → m.cur_page ≡ none
    → file_of name m ≡ none
    → m.files name ≡ none
unfolding file_of
no_current m name c e = ground (arith, c, e)

-- The steps of a manager with a current page that makes a new one.
pub create_new_page-closes :
    (rounds fuel now : ℕ) (m m' : Manager) (old : PageName) (p : Page)
    → m.cur_page ≡ some (old, p)
    → create_new_page rounds fuel now m ≡ ok m'
    → (name : PageName) × (q : Page) × (m'.cur_page
        ≡ some (name, record (create m.default_page_size none) { window = p.window }))
      × (close fuel p ≡ ok q)
      × (m'.files ≡ put_file old q m.files)
      × (m'.files name ≡ none)
      × (m'.page_list ≡ m.page_list ++ name ∷ [])
      × (m'.default_page_size ≡ m.default_page_size)
unfolding create_new_page close_current_page file_of
create_new_page-closes rounds fuel now m m' old p c e =
    let make : Manager → Result Manager = λ m₁. unique_name rounds now 0 m₁ >>= λ name.
    ok (record m₁ {
      cur_page = some (name, take_over m.cur_page (create m.default_page_size none));
      page_list = m₁.page_list ++ name ∷ [];
    }) in
    let (m₁, e₁, e₂) = >>=-eq-ok (close_current_page fuel m) make {y = m'} e in
    let shut : Page → Result Manager =
      λ q. ok (record m { cur_page = none; files = put_file old q m.files }) in
    let (q, e₃, e₄) = >>=-eq-ok (close fuel p) shut {y = m₁} (ground (arith, e₁, c)) in
    let h : record m { cur_page = none; files = put_file old q m.files } ≡ m₁ =
      ok-injective _ m₁ e₄ in
    let named : PageName → Result Manager = λ name. ok (record m₁ {
      cur_page = some (name, take_over m.cur_page (create m.default_page_size none));
      page_list = m₁.page_list ++ name ∷ [];
    }) in
    let (name, e₅, e₆) = >>=-eq-ok (unique_name rounds now 0 m₁) named {y = m'} e₂ in
    let g : record m₁ {
      cur_page = some (name, take_over m.cur_page (create m.default_page_size none));
      page_list = m₁.page_list ++ name ∷ [];
    }
        ≡ m' =
      ok-injective _ m' e₆ in
    let free : m₁.files name ≡ none =
      no_current m₁ name (ap (λ (x : Manager). x.cur_page) (sym h))
        (unique_name-free rounds now 0 m₁ name e₅) in
    (
      name,
      q,
      ap (λ (x : Manager). x.cur_page) (sym g)
          ∙ ap (λ cur. some (name, take_over cur (create m.default_page_size none))) c
          ∙ ap (λ ww. some (name, record (create m.default_page_size none) { window = ww }))
              (assign_lem (create m.default_page_size none).window p.window),
      e₃,
      ap (λ (x : Manager). x.files) (sym g) ∙ ap (λ (x : Manager). x.files) (sym h),
      ap (λ (x : Manager). x.files name) (sym g) ∙ free,
      ap (λ (x : Manager). x.page_list) (sym g)
          ∙ ap (λ (x : Manager). x.page_list ++ name ∷ []) (sym h),
      ap (λ (x : Manager). x.default_page_size) (sym g)
          ∙ ap (λ (x : Manager). x.default_page_size) (sym h),
    )

-- A manager with a current page that is mapped, which makes a new one and returns, closes it: in its
-- file it stands as IsClosed says, with its records and its values' bytes, and every other file is
-- as it was. The new page has no measurements, takes over the write window, and its name, which
-- goes to the end of the list, is one of no file.
pub create_new_page_lem :
    (rounds fuel now : ℕ) (m m' : Manager) (old : PageName) (p : Page)
    → m.cur_page ≡ some (old, p)
    → p.mapped ≡ true
    → create_new_page rounds fuel now m ≡ ok m'
    → (name : PageName) × (q : Page) × (m'.cur_page
        ≡ some (name, record (create m.default_page_size none) { window = p.window }))
      × IsClosed fuel p q
      × (m'.files ≡ put_file old q m.files)
      × (m'.files name ≡ none)
      × (m'.page_list ≡ m.page_list ++ name ∷ [])
      × (m'.default_page_size ≡ m.default_page_size)
create_new_page_lem rounds fuel now m m' old p c mapped e =
    let (name, q, cur, shut, files, free, names, size) =
      create_new_page-closes rounds fuel now m m' old p c e in
    (name, q, cur, close-IsClosed fuel p q shut mapped, files, free, names, size)

-- ===== src/Writer/Holds.antt =====
-- What the pages of a manager (libnkvdb/page_manager.cpp) show, one after the other.
use nkvdb.Prelude.{
  ℕ, ◌≡◌, refl, sym, ap, ◌∙◌, inl, inr, true, false, List, [], ◌∷◌, ◌++◌, Option, none, some, arith,
  All, Bool-cases,
}
use mathlib.Core.List.{append_assoc}
use nkvdb.Meas.{Meas}
use nkvdb.Page.{Page}
use nkvdb.Page.Layout.{IsSound}
use nkvdb.Page.Layout.Fill.{FitsSize}
use nkvdb.Manager.{Manager, PageName, same_name, put_file}
use nkvdb.Writer.View.{Shows, IsPageSize}

-- A closed page and what it shows.
abbrev pub Filed : (PageName → Option Page) → PageName → PageName × List Meas → Type 0
Filed files cur a = ((p : Page) × (files a.0 ≡ some p) × Shows p a.1) × (same_name a.0 cur ≡ false)

-- The closed pages of a manager, in the order of their making, and its current page, with what they
-- show; all are of one size, for measurements with values of `s` bytes.
pub record Holds (s : ℕ) (m : Manager) (closed : List (PageName × List Meas)) (ms : List Meas)
    : Type 0 where
  pub name : PageName
  pub page : Page
  pub current : m.cur_page ≡ some (name, page)
  pub shows : Shows page ms
  pub sound : IsSound page
  pub fits : FitsSize s page
  pub archive : All (Filed m.files name) closed
  pub sized : IsPageSize s m.default_page_size

-- All that the pages show.
abbrev pub contents : List (PageName × List Meas) → List Meas → List Meas
contents [] ms = ms
contents (a ∷ closed) ms = a.1 ++ contents closed ms

pub contents_snoc :
    (closed : List (PageName × List Meas)) (name : PageName) (ms ns : List Meas)
    → contents (closed ++ (name, ms) ∷ []) ns ≡ contents closed ms ++ ns
contents_snoc [] name ms ns = refl
contents_snoc (a ∷ closed) name ms ns =
    ap (λ xs. a.1 ++ xs) (contents_snoc closed name ms ns)
    ∙ sym (append_assoc a.1 (contents closed ms) ns)

pub contents-append :
    (closed : List (PageName × List Meas)) (ms ns : List Meas)
    → contents closed (ms ++ ns) ≡ contents closed ms ++ ns
contents-append [] ms ns = refl
contents-append (a ∷ closed) ms ns =
    ap (λ xs. a.1 ++ xs) (contents-append closed ms ns)
    ∙ sym (append_assoc a.1 (contents closed ms) ns)

same_name-eq : (a b : PageName) → same_name a b ≡ true → a ≡ b
same_name-eq a b h =
    let t : a.time ≡ b.time = ground (arith, h) in
    let u : a.suffix ≡ b.suffix = ground (arith, h) in λ i. record { time = t i; suffix = u i }

module _ (old name : PageName) (q : Page) (files : PageName → Option Page)
    (free : put_file old q files name ≡ none) where
  -- A name that is in use is not the free one.
  pub in_use-other :
      (x : PageName) (p : Page) → put_file old q files x ≡ some p → same_name x name ≡ false
  in_use-other x p e = elim (Bool-cases (same_name x name)) [
    | inl h ↦ absurd (cc (sym e ∙ ap (put_file old q files) (same_name-eq x name h) ∙ free))
    | inr h ↦ h
  ]

  pub put_file-same : put_file old q files old ≡ some q
  put_file-same = ground arith

  put_file-other : (x : PageName) → same_name x old ≡ false → put_file old q files x ≡ files x
  put_file-other x h = ground (arith, h)

  -- Pages filed before stay filed beside the page just closed.
  pub Filed-put :
      (closed : List (PageName × List Meas))
      → All (Filed files old) closed
      → All (Filed (put_file old q files) name) closed
  Filed-put [] h = tt
  Filed-put (a ∷ closed) h =
      let (p, e, sh) = h.0.0 in
      let e' = put_file-other a.0 h.0.1 ∙ e in
      (((p, e', sh), in_use-other a.0 p e'), Filed-put closed h.1)

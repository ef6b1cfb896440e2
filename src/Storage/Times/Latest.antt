-- ===== src/Storage/Times/Latest.antt =====
-- What `maxTime` of libnkvdb/storage.cpp answers.
use nkvdb.Prelude.{ℕ, Bool, ◌≤◌, ◌≡◌, sym, ap, ◌∙◌, List, [], ◌∷◌, All}
use mathlib.Core.Path.{subst}
use nkvdb.Prelude.Result.{Result, ok, >>=-eq-ok, ok-injective, ◌>>=◌}
use nkvdb.Cache.{Cache}
use nkvdb.Page.{Header}
use nkvdb.Page.Files.{read_header}
use nkvdb.Manager.{Manager, PageName, file_of, pages_by_time, read_headers, page_list_of}
use nkvdb.Storage.{PageInfo}
use nkvdb.Storage.Writes.{Store, flush_and_stop, pause_work}
use nkvdb.Storage.Times.{front, max_time}

-- Every page of a list of names has a header that ends by a time.
abbrev pub EndBy : ℕ → Manager → List PageName → Type 0
EndBy t m =
    All (λ name. (hdr : Header) × (read_header (file_of name m) ≡ ok hdr) × (hdr.max_time ≤ t))

abbrev InfoEndBy : ℕ → List (PageInfo PageName) → Type 0
InfoEndBy t = All (λ p. p.header.max_time ≤ t)

-- `std::sort` of `pagesByTime`: the first is one of the list, and no page ends later.
pub record IsByTime (sort : List (PageInfo PageName) → List (PageInfo PageName)) : Type 0 where
  pub greatest :
      (infos : List (PageInfo PageName)) (p : PageInfo PageName)
      → front (sort infos) ≡ ok p
      → InfoEndBy p.header.max_time infos

read_headers-EndBy :
    (t : ℕ) (m : Manager) (names : List PageName) (infos : List (PageInfo PageName))
    → read_headers names m ≡ ok infos
    → InfoEndBy t infos
    → EndBy t m names
unfolding read_headers
read_headers-EndBy t m [] infos e h = tt
read_headers-EndBy t m (name ∷ names) infos e h =
    let last : Header → List (PageInfo PageName) → Result (List (PageInfo PageName)) =
      λ hdr infos. ok (record { header = hdr; name = name } ∷ infos) in
    let next : Header → Result (List (PageInfo PageName)) =
      λ hdr. read_headers names m >>= last hdr in
    let (hdr, e₁, e₂) = >>=-eq-ok (read_header (file_of name m)) next {y = infos} e in
    let (rest, e₃, e₄) = >>=-eq-ok (read_headers names m) (last hdr) {y = infos} e₂ in
    let all : InfoEndBy t (record { header = hdr; name = name } ∷ rest) =
      subst (InfoEndBy t) (sym (ok-injective _ infos e₄)) h in
    ((hdr, e₁, all.0), read_headers-EndBy t m names rest e₃ all.1)

module _ (write : Cache → Manager → Result (Cache × Manager)) (fuel : ℕ)
    (sort : List (PageInfo PageName) → List (PageInfo PageName)) (dir : List PageName)
    (by_time : IsByTime sort) where
  -- When `maxTime` returns, all pages have headers, and none of them ends after the time returned.
  pub max_time-EndBy :
      (turns : List ℕ) (polls : List (ℕ × Bool)) (st st' : Store Manager) (t : ℕ)
      → max_time write fuel sort dir turns polls st ≡ ok (st', t)
      → ((flush_and_stop write fuel turns polls st >>= pause_work write fuel) ≡ ok st')
        × EndBy t st'.pages (page_list_of dir st'.pages)
  unfolding max_time pages_by_time
  max_time-EndBy turns polls st st' t e =
      let last : Store Manager → PageInfo PageName → Result (Store Manager × ℕ) =
        λ s p. ok (s, p.header.max_time) in
      let third : Store Manager → List (PageInfo PageName) → Result (Store Manager × ℕ) =
        λ s infos. front infos >>= last s in
      let second : Store Manager → Result (Store Manager × ℕ) =
        λ s. pages_by_time sort dir s.pages >>= third s in
      let stopped : Store Manager → Result (Store Manager × ℕ) =
        λ s. pause_work write fuel s >>= second in
      let (s₁, e₁₁, e₁₂) =
        >>=-eq-ok (flush_and_stop write fuel turns polls st) stopped {y = (st', t)} e in
      let (s, e₁₃, e₂) = >>=-eq-ok (pause_work write fuel s₁) second {y = (st', t)} e₁₂ in
      let e₁ : (flush_and_stop write fuel turns polls st >>= pause_work write fuel) ≡ ok s =
        ap (λ r. r >>= pause_work write fuel) e₁₁ ∙ e₁₃ in
      let (sorted, e₃, e₄) =
        >>=-eq-ok (pages_by_time sort dir s.pages) (third s) {y = (st', t)} e₂ in
      let (p, e₅, e₆) = >>=-eq-ok (front sorted) (last s) {y = (st', t)} e₄ in
      let (infos, e₇, e₈) =
        >>=-eq-ok (read_headers (page_list_of dir s.pages) s.pages) (λ infos. ok (sort infos))
          {y = sorted} e₃ in
      let pair : ◌≡◌ {A = Store Manager × ℕ} (s, p.header.max_time) (st', t) =
        ok-injective (s, p.header.max_time) (st', t) e₆ in
      let first : front (sort infos) ≡ ok p = ap front (ok-injective (sort infos) sorted e₈) ∙ e₅ in
      let all =
        read_headers-EndBy p.header.max_time s.pages (page_list_of dir s.pages) infos e₇
          (by_time.greatest infos p first) in
      subst
        (λ (x : Store Manager × ℕ).
          ((flush_and_stop write fuel turns polls st >>= pause_work write fuel) ≡ ok x.0)
          × EndBy x.1 x.0.pages (page_list_of dir x.0.pages))
        pair (e₁, all)

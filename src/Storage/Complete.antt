-- ===== src/Storage/Complete.antt =====
-- Which pages `Storage::readInterval` of libnkvdb/storage.cpp is sure to read.
use nkvdb.Prelude.{
  ℕ, zero, suc, ◌≤◌, ◌<◌, ◌≡◌, ◌⊎◌, inl, inr, refl, Bool, true, false, List, [], ◌∷◌, ◌++◌, Option,
  none, some, arith, get_elem?, ltb, leb, ◌==◌, if◌then◌else◌, ◌&&◌, length,
}
use nkvdb.Index.{IndexQuery}
use nkvdb.Storage.{
  PageInfo, Chosen, filters_pass, visit, visit_all, choose_interval, push, push_prev, set_prev,
  is_none, ends_by,
}

-- A name is in a list.
abbrev pub In : {Name : Type 0} → Name → List Name → Type 0
In name [] = ⊥
In name (x ∷ xs) = (x ≡ name) ⊎ In name xs

module _ {Name : Type 0} (name : Name) where
  In-push : (xs : List Name) → In name (xs ++ name ∷ [])
  In-push [] = inl refl
  In-push (x ∷ xs) = inr (In-push xs)

  In-append : (xs ys : List Name) → In name xs → In name (xs ++ ys)
  In-append [] ys h = absurd h
  In-append (x ∷ xs) ys (inl h) = inl h
  In-append (x ∷ xs) ys (inr h) = inr (In-append xs ys h)

  if-Keeps :
      (b : Bool) (s t : Chosen Name)
      → (b ≡ true → In name s.to_read)
      → (b ≡ false → In name t.to_read)
      → In name (if b then s else t).to_read
  if-Keeps true s t f g = f refl
  if-Keeps false s t f g = g refl

  push_prev-In :
      (prev : Option (PageInfo Name)) (s : Chosen Name)
      → In name s.to_read
      → In name (push_prev prev s).to_read
  push_prev-In none s h = h
  push_prev-In (some p) s h = In-append s.to_read (p.name ∷ []) h

  set_prev-In :
      (prev : Option (PageInfo Name)) (s : Chosen Name)
      → In name s.to_read
      → In name (set_prev prev s).to_read
  set_prev-In none s h = h
  set_prev-In (some p) s h = h

module _ {Name : Type 0} (name : Name) (from to : ℕ) (prev : Option (PageInfo Name))
    (page : PageInfo Name) (s : Chosen Name) where
  abbrev encloses : Bool
  encloses = leb page.header.min_time from && leb to page.header.max_time

  abbrev goes_on : Bool
  goes_on = leb page.header.min_time from && ltb from page.header.max_time

  abbrev after_gap : Bool
  after_gap = ltb from page.header.min_time && ends_by from prev

  abbrev begins_in : Bool
  begins_in =
      leb from page.header.min_time && leb to page.header.max_time && leb page.header.min_time to

  abbrev lies_in : Bool
  lies_in = leb from page.header.min_time && leb page.header.max_time to

  visit_branches :
      In name (push page.name s).to_read
      → In name (push page.name (push_prev prev s)).to_read
      → (encloses ≡ false
          → goes_on ≡ false
          → begins_in ≡ false
          → lies_in ≡ false
          → In name s.to_read)
      → In name (visit from to prev page s).to_read
  unfolding visit
  visit_branches g k z =
      let s₁ = push page.name s in
      let s₂ = set_prev prev s₁ in
      let s₃ = push page.name (push_prev prev s) in
      let one = is_none s.prev_page && length s₁.to_read == 1 in
      let r₅ : Chosen Name = if lies_in then s₁ else s in
      let r₄ : Chosen Name = if begins_in then s₁ else r₅ in
      let r₃ : Chosen Name = if after_gap then s₃ else r₄ in
      let r₂ : Chosen Name = if goes_on then s₂ else r₃ in
      let r₁ : Chosen Name = if one then s₂ else s₁ in
      let g₂ = set_prev-In name prev s₁ g in
      if-Keeps name encloses r₁ r₂ (λ _. if-Keeps name one s₂ s₁ (λ _. g₂) (λ _. g))
        (λ a.
          if-Keeps name goes_on s₂ r₃ (λ _. g₂)
            (λ b.
              if-Keeps name after_gap s₃ r₄ (λ _. k)
                (λ c.
                  if-Keeps name begins_in s₁ r₅ (λ _. g)
                    (λ d. if-Keeps name lies_in s₁ s (λ _. g) (λ e. z a b d e)))))

  -- A page taken before stays.
  visit-keeps : In name s.to_read → In name (visit from to prev page s).to_read
  visit-keeps h =
      visit_branches (In-append name s.to_read (page.name ∷ []) h)
        (In-append name (push_prev prev s).to_read (page.name ∷ []) (push_prev-In name prev s h))
        (λ a b c d. h)

module _ {Name : Type 0} (page : PageInfo Name) where
  -- A page with a moment of the query, which does not end where the query begins, is taken.
  visit-takes :
      (from to t : ℕ) (prev : Option (PageInfo Name)) (s : Chosen Name)
      → page.header.min_time ≤ t
      → t ≤ page.header.max_time
      → from ≤ t
      → t ≤ to
      → (from < page.header.max_time) ⊎ (from ≤ page.header.min_time)
      → In page.name (visit from to prev page s).to_read
  visit-takes from to t prev s h₁ h₂ h₃ h₄ h₅ =
      visit_branches page.name from to prev page s (In-push page.name s.to_read)
        (In-push page.name (push_prev prev s).to_read) (λ a b c d. absurd (ground arith))

  visit_all-keeps :
      (q : IndexQuery) (pages : List (PageInfo Name)) (prev : Option (PageInfo Name))
      (s : Chosen Name)
      → In page.name s.to_read
      → In page.name (visit_all q prev pages s).to_read
  unfolding visit_all
  visit_all-keeps q [] prev s h = h
  visit_all-keeps q (p ∷ ps) prev s h =
      let s' = visit q.from q.to prev p s in
      visit_all-keeps q ps (some p) (if filters_pass q p.header then s' else s) (
        if-Keeps page.name (filters_pass q p.header) s' s
          (λ _. visit-keeps page.name q.from q.to prev p s h) (λ _. h))

  visit_all-takes :
      (q : IndexQuery) (pages : List (PageInfo Name)) (i t : ℕ) (prev : Option (PageInfo Name))
      (s : Chosen Name)
      → get_elem? pages i ≡ some page
      → filters_pass q page.header ≡ true
      → page.header.min_time ≤ t
      → t ≤ page.header.max_time
      → q.from ≤ t
      → t ≤ q.to
      → (q.from < page.header.max_time) ⊎ (q.from ≤ page.header.min_time)
      → In page.name (visit_all q prev pages s).to_read
  unfolding visit_all
  visit_all-takes q [] i t prev s e f h₁ h₂ h₃ h₄ h₅ = cc e
  visit_all-takes q (p ∷ ps) zero t prev s e f h₁ h₂ h₃ h₄ h₅ =
      let same : p ≡ page = cc e in
      let taken = visit-takes q.from q.to t prev s h₁ h₂ h₃ h₄ h₅ in
      let s' = visit q.from q.to prev p s in
      visit_all-keeps q ps (some p) (if filters_pass q p.header then s' else s) (
        if-Keeps page.name (filters_pass q p.header) s' s (λ g. rw same taken)
          (λ g. absurd (cc (g, f, same))))
  visit_all-takes q (p ∷ ps) (suc i) t prev s e f h₁ h₂ h₃ h₄ h₅ =
      visit_all-takes q ps i t (some p)
        (if filters_pass q p.header then visit q.from q.to prev p s else s) e f h₁ h₂ h₃ h₄ h₅

  -- An interval query reads every page whose filters pass the query and whose times enclose a moment
  -- of the interval, unless the page begins before the interval and ends at its first moment.
  pub choose_interval_complete :
      (q : IndexQuery) (pages : List (PageInfo Name)) (i t : ℕ)
      → get_elem? pages i ≡ some page
      → filters_pass q page.header ≡ true
      → page.header.min_time ≤ t
      → t ≤ page.header.max_time
      → q.from ≤ t
      → t ≤ q.to
      → (q.from < page.header.max_time) ⊎ (q.from ≤ page.header.min_time)
      → In page.name (choose_interval q pages).to_read
  unfolding choose_interval
  choose_interval_complete q pages i t =
      visit_all-takes q pages i t none (record { to_read = []; prev_page = none })

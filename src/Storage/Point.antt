-- ===== src/Storage/Point.antt =====
-- Which page `Storage::readInTimePoint` of libnkvdb/storage.cpp reads.
use nkvdb.Prelude.{
  ℕ, zero, suc, ◌≤◌, ◌<◌, ◌≡◌, ◌⊎◌, inl, inr, refl, Bool, true, false, List, [], ◌∷◌, Option, none,
  some, arith, get_elem?, leb, ltb, ◌&&◌, not, if◌then◌else◌, length,
}
use nkvdb.Index.{IndexQuery}
use nkvdb.Storage.{
  PageInfo, Chosen, filters_pass, find_point, choose_point, push, push_prev, set_prev, ends_by,
  is_last,
}

module _ {Name : Type 0} where
  -- The page that is read encloses the moment, or is the last one and ends by it, or is the one
  -- before a page that begins after it, and ends by it. The page that is met then passes the filters.
  abbrev pub IsTaken : IndexQuery → List (PageInfo Name) → Name → Type 0
  IsTaken q pages name =
      (j : ℕ) × (p : PageInfo Name) × (get_elem? pages j ≡ some p)
      × (filters_pass q p.header ≡ true)
      × (((p.header.min_time ≤ q.from) × (q.from ≤ p.header.max_time) × (name ≡ p.name))
          ⊎ (((p.header.min_time ≤ q.from)
                × (p.header.max_time ≤ q.from)
                × (length pages ≡ suc j)
                × (name ≡ p.name))
              ⊎ ((q.from < p.header.min_time)
                  × (k : ℕ) × (before : PageInfo Name) × (suc k ≡ j)
                  × (get_elem? pages k ≡ some before)
                  × (before.header.max_time ≤ q.from)
                  × (name ≡ before.name))))

  -- The page before, if there is one, and those to come.
  abbrev from_prev : Option (PageInfo Name) → List (PageInfo Name) → List (PageInfo Name)
  from_prev none pages = pages
  from_prev (some p) pages = p ∷ pages

  one_more :
      (q : IndexQuery) (b : PageInfo Name) (pages : List (PageInfo Name)) (name : Name)
      → IsTaken q pages name
      → IsTaken q (b ∷ pages) name
  one_more q b pages name (j, p, at, f, inl x) = (suc j, p, at, f, inl x)
  one_more q b pages name (j, p, at, f, inr (inl (h, g, l, n))) =
      (suc j, p, at, f, inr (inl (h, g, omega (arith, l), n)))
  one_more q b pages name (j, p, at, f, inr (inr (h, k, before, s, at', g, n))) =
      (suc j, p, at, f, inr (inr (h, suc k, before, omega (arith, s), at', g, n)))

  later-IsTaken :
      (q : IndexQuery) (p : PageInfo Name) (ps : List (PageInfo Name))
      (prev : Option (PageInfo Name)) (name : Name)
      → IsTaken q (p ∷ ps) name
      → IsTaken q (from_prev prev (p ∷ ps)) name
  later-IsTaken q p ps none name t = t
  later-IsTaken q p ps (some b) name t = one_more q b (p ∷ ps) name t

  -- One page is read, and it is the right one.
  IsOne : IndexQuery → List (PageInfo Name) → Chosen Name → Type 0
  IsOne q pages s = (name : Name) × (s.to_read ≡ name ∷ []) × IsTaken q pages name

  if-IsOne :
      (q : IndexQuery) (pages : List (PageInfo Name)) (b : Bool) (s t : Chosen Name)
      → (b ≡ true → IsOne q pages s)
      → (b ≡ false → IsOne q pages t)
      → IsOne q pages (if b then s else t)
  if-IsOne q pages true s t f g = f refl
  if-IsOne q pages false s t f g = g refl

  module _ (q : IndexQuery) (p : PageInfo Name) (ps : List (PageInfo Name))
      (f : filters_pass q p.header ≡ true) where
    last-IsOne :
        (prev : Option (PageInfo Name))
        → (leb p.header.min_time q.from && leb p.header.max_time q.from && is_last ps) ≡ true
        → IsOne q (from_prev prev (p ∷ ps)) (record { to_read = p.name ∷ []; prev_page = none })
    unfolding IsOne
    last-IsOne prev h =
        let here : IsTaken q (p ∷ ps) p.name =
          (0, p, refl, f, inr (inl (ground (arith, h), ground (arith, h), one_left ps h, refl))) in
        (p.name, refl, later-IsTaken q p ps prev p.name here)
      where
        one_left :
            (xs : List (PageInfo Name))
            → (leb p.header.min_time q.from && leb p.header.max_time q.from && is_last xs) ≡ true
            → length (p ∷ xs) ≡ suc 0
        one_left [] h = refl
        one_left (x ∷ xs) h = absurd (ground (arith, h))

    inside-IsOne :
        (prev : Option (PageInfo Name))
        → (leb p.header.min_time q.from && leb q.from p.header.max_time) ≡ true
        → IsOne q
            (from_prev prev (p ∷ ps))
            (set_prev prev (record { to_read = p.name ∷ []; prev_page = none }))
    unfolding IsOne
    inside-IsOne none h =
        (p.name, refl, (0, p, refl, f, inl (ground (arith, h), ground (arith, h), refl)))
    inside-IsOne (some b) h =
        (p.name, refl, (1, p, refl, f, inl (ground (arith, h), ground (arith, h), refl)))

    before-IsOne :
        (prev : Option (PageInfo Name))
        → (ltb q.from p.header.min_time && ends_by q.from prev) ≡ true
        → IsOne q
            (from_prev prev (p ∷ ps))
            (push_prev prev (record { to_read = []; prev_page = none }))
    unfolding IsOne
    before-IsOne none h = absurd (ground (arith, h))
    before-IsOne (some b) h =
        let gap : (q.from < p.header.min_time)
            × (k : ℕ) × (before : PageInfo Name) × (suc k ≡ 1)
            × (get_elem? (b ∷ p ∷ ps) k ≡ some before)
            × (before.header.max_time ≤ q.from)
            × (b.name ≡ before.name) =
          (ground (arith, h), 0, b, refl, refl, ground (arith, h), refl) in
        (b.name, refl, (1, p, refl, f, inr (inr gap)))

  find_point_branches :
      (q : IndexQuery) (p : PageInfo Name) (ps : List (PageInfo Name))
      (prev : Option (PageInfo Name))
      → ((filters_pass q p.header ≡ false)
            ⊎ ((leb p.header.min_time q.from && leb q.from p.header.max_time) ≡ false)
          → IsOne q (p ∷ ps) (find_point q (some p) ps))
      → IsOne q (from_prev prev (p ∷ ps)) (find_point q prev (p ∷ ps))
  unfolding find_point IsOne
  find_point_branches q p ps prev later =
      let tp = q.from in
      let nothing : Chosen Name = record { to_read = []; prev_page = none } in
      let rest = find_point q (some p) ps in
      let one = push p.name nothing in
      let before = ltb tp p.header.min_time && ends_by tp prev in
      let inside = leb p.header.min_time tp && leb tp p.header.max_time in
      let last = leb p.header.min_time tp && leb p.header.max_time tp && is_last ps in
      let r₃ : Chosen Name = if before then push_prev prev nothing else rest in
      let r₂ : Chosen Name = if inside then set_prev prev one else r₃ in
      let r₁ : Chosen Name = if last then one else r₂ in
      let all = from_prev prev (p ∷ ps) in
      let go_on : (filters_pass q p.header ≡ false) ⊎ (inside ≡ false) → IsOne q all rest =
        λ x. let (name, e, t) = later x in (name, e, later-IsTaken q p ps prev name t) in
      if-IsOne q all (not (filters_pass q p.header)) rest r₁ (λ a. go_on (inl (ground (arith, a))))
        (λ a.
          let f : filters_pass q p.header ≡ true = ground (arith, a) in
          if-IsOne q all last one r₂ (last-IsOne q p ps f prev) (λ _.
            if-IsOne q all inside (set_prev prev one) r₃ (inside-IsOne q p ps f prev) (λ b.
              if-IsOne q all before (push_prev prev nothing) rest (before-IsOne q p ps f prev)
                (λ _. go_on (inr b)))))

  find_point-IsOne :
      (q : IndexQuery) (pages : List (PageInfo Name)) (i : ℕ) (page : PageInfo Name)
      (prev : Option (PageInfo Name))
      → get_elem? pages i ≡ some page
      → filters_pass q page.header ≡ true
      → page.header.min_time ≤ q.from
      → q.from ≤ page.header.max_time
      → IsOne q (from_prev prev pages) (find_point q prev pages)
  find_point-IsOne q [] i page prev e f h g = cc e
  find_point-IsOne q (p ∷ ps) zero page prev e f h g =
      let same : p ≡ page = cc e in
      find_point_branches q p ps prev (λ miss. elim miss [
        | inl x ↦ absurd (cc (x, f, same))
        | inr x ↦ absurd (ground (arith, x, same))
      ])
  find_point-IsOne q (p ∷ ps) (suc i) page prev e f h g =
      find_point_branches q p ps prev (λ _. find_point-IsOne q ps i page (some p) e f h g)

  -- A query for a moment that some page encloses whose filters pass the query reads one page. There
  -- is a page in the list whose filters pass, such that the page read is this one, and it encloses
  -- the moment, or is the last of the list and begins and ends by the moment; or this page begins
  -- after the moment, and the page read is the one before it in the list, which ends by the moment.
  pub choose_point-IsOne :
      (q : IndexQuery) (pages : List (PageInfo Name)) (i : ℕ) (page : PageInfo Name)
      → get_elem? pages i ≡ some page
      → filters_pass q page.header ≡ true
      → page.header.min_time ≤ q.from
      → q.from ≤ page.header.max_time
      → (name : Name) × ((choose_point q pages).to_read ≡ name ∷ []) × IsTaken q pages name
  unfolding choose_point IsOne
  choose_point-IsOne q pages i page e f h g = find_point-IsOne q pages i page none e f h g

-- ===== src/Storage/Oldes.antt =====
-- Which page `PageManager::getOldesPage` of libnkvdb/page_manager.cpp finds.
use nkvdb.Prelude.{
  ℕ, ◌≤◌, ◌<◌, ◌≡◌, refl, sym, ◌⊎◌, inl, inr, List, [], ◌∷◌, Option, none, some, arith, All, dec_lt,
}
use nkvdb.Storage.{PageInfo, get_oldes_page, oldes_loop}

module _ {Name : Type 0} where
  -- A page of a list, with a name and a last time.
  abbrev pub Has : Name → ℕ → List (PageInfo Name) → Type 0
  Has name time [] = ⊥
  Has name time (p ∷ ps) = ((p.name ≡ name) × (p.header.max_time ≡ time)) ⊎ Has name time ps

  abbrev pub EndsBy : ℕ → PageInfo Name → Type 0
  EndsBy time p = p.header.max_time ≤ time

  abbrev pub HasTime : PageInfo Name → Type 0
  HasTime p = 0 < p.header.max_time

  loop_later :
      (p : PageInfo Name) (ps : List (PageInfo Name)) (time : ℕ) (found : Option Name)
      → time < p.header.max_time
      → oldes_loop (p ∷ ps) time found ≡ oldes_loop ps p.header.max_time (some p.name)
  unfolding oldes_loop
  loop_later p ps time found h = ground arith

  loop_not_later :
      (p : PageInfo Name) (ps : List (PageInfo Name)) (time : ℕ) (found : Option Name)
      → 0 < p.header.max_time
      → p.header.max_time ≤ time
      → oldes_loop (p ∷ ps) time found ≡ oldes_loop ps time found
  unfolding oldes_loop
  loop_not_later p ps time found z h = ground arith

  -- What the loop finds: the last time of all, which is the one that it began with or a page's.
  Last : List (PageInfo Name) → ℕ → Option Name → Option Name → Type 0
  Last ps time found result =
      (last : ℕ) × (time ≤ last)
      × All (EndsBy last) ps
      × (((last ≡ time) × (result ≡ found))
          ⊎ ((name : Name) × (result ≡ some name) × Has name last ps))

  later :
      (p : PageInfo Name) (ps : List (PageInfo Name)) (time : ℕ) (found : Option Name)
      (result : Option Name)
      → time < p.header.max_time
      → Last ps p.header.max_time (some p.name) result
      → Last (p ∷ ps) time found result
  unfolding Last
  later p ps time found result d (last, a, b, inl (e, f)) =
      (last, omega arith, (a, b), inr (p.name, f, inl (refl, sym e)))
  later p ps time found result d (last, a, b, inr (name, f, g)) =
      (last, omega arith, (a, b), inr (name, f, inr g))

  not_later :
      (p : PageInfo Name) (ps : List (PageInfo Name)) (time : ℕ) (found : Option Name)
      (result : Option Name)
      → p.header.max_time ≤ time
      → Last ps time found result
      → Last (p ∷ ps) time found result
  unfolding Last
  not_later p ps time found result d (last, a, b, inl (e, f)) =
      (last, a, (omega arith, b), inl (e, f))
  not_later p ps time found result d (last, a, b, inr (name, f, g)) =
      (last, a, (omega arith, b), inr (name, f, inr g))

  loop_lem :
      (ps : List (PageInfo Name)) (time : ℕ) (found : Option Name)
      → All HasTime ps
      → Last ps time found (oldes_loop ps time found)
  unfolding Last oldes_loop
  loop_lem [] time found h = (time, omega arith, tt, inl (refl, refl))
  loop_lem (p ∷ ps) time found h = elim (dec_lt time p.header.max_time) [
    | yes d ↦
        rw (loop_later p ps time found d)
          (later p ps time found _ d (loop_lem ps p.header.max_time (some p.name) h.1))
    | no d ↦
        rw (loop_not_later p ps time found h.0 (omega (arith, d)))
          (not_later p ps time found _ (omega (arith, d)) (loop_lem ps time found h.1))
  ]

  -- Among pages that all have a last time above 0 the page found is one with the latest of these.
  pub get_oldes_page-latest :
      (p : PageInfo Name) (ps : List (PageInfo Name))
      → All HasTime (p ∷ ps)
      → (name : Name) × (last : ℕ) × (get_oldes_page (p ∷ ps) ≡ some name)
        × Has name last (p ∷ ps)
        × All (EndsBy last) (p ∷ ps)
  unfolding get_oldes_page Last
  get_oldes_page-latest p [] h =
      (p.name, p.header.max_time, refl, inl (refl, refl), (omega arith, tt))
  get_oldes_page-latest p (x ∷ xs) h = found (loop_lem (p ∷ x ∷ xs) 0 none h)
    where
      found :
          Last (p ∷ x ∷ xs) 0 none (oldes_loop (p ∷ x ∷ xs) 0 none)
          → (name : Name) × (last : ℕ) × (oldes_loop (p ∷ x ∷ xs) 0 none ≡ some name)
            × Has name last (p ∷ x ∷ xs)
            × All (EndsBy last) (p ∷ x ∷ xs)
      found (last, a, b, inl (e, f)) = absurd (omega (arith, h.0, b.0))
      found (last, a, b, inr (name, f, g)) = (name, last, f, g, b)

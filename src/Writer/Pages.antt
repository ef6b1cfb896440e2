-- ===== src/Writer/Pages.antt =====
-- What the writer of libnkvdb/storage.cpp puts into the pages of libnkvdb/page_manager.cpp.
use nkvdb.Prelude.{
  ℕ, zero, suc, ◌+◌, ◌-◌, ◌≤◌, ◌<◌, ◌≡◌, refl, sym, ap, ◌∙◌, ◌⊎◌, inl, inr, List, [], ◌∷◌, ◌++◌,
  arith, length, take, drop, All,
}
use mathlib.Core.List.{append_assoc, append-nil}
use mathlib.Core.Path.{subst}
use nkvdb.Prelude.Result.{Result, ok, >>=-eq-ok, ok-injective}
use nkvdb.Meas.{Meas}
use nkvdb.Page.{meas_bytes}
use nkvdb.Page.Layout.Fill.{gap, HasSize}
use nkvdb.Manager.{Manager, PageName}
use nkvdb.Writer.{Limits, write_round, write_loop}
use nkvdb.Writer.Holds.{Holds, contents}
use nkvdb.Writer.Rounds.{Round, write_round-Round}

take-drop_append : (n : ℕ) (xs : List Meas) → take n xs ++ drop n xs ≡ xs
take-drop_append zero xs = refl
take-drop_append (suc n) [] = refl
take-drop_append (suc n) (x ∷ xs) = ap (λ ys. x ∷ ys) (take-drop_append n xs)

All-drop : (P : Meas → Type 0) (n : ℕ) (xs : List Meas) → All P xs → All P (drop n xs)
All-drop P zero xs h = h
All-drop P (suc n) [] h = tt
All-drop P (suc n) (x ∷ xs) h = All-drop P n xs h.1

length-drop_le : (n : ℕ) (xs : List Meas) → length (drop n xs) ≡ length xs - n
length-drop_le zero xs = omega arith
length-drop_le (suc n) [] = omega arith
length-drop_le (suc n) (x ∷ xs) = omega (arith, length-drop_le n xs)

-- The loop: what is written stands at the end of what the pages show, and before it is what is left.
-- A page with room takes at least one measurement in each round.
record Written (s rounds : ℕ) (m' : Manager) (before : List Meas) (begin left : List Meas)
    (roomy : Type 0) : Type 0 where
  closed' : List (PageName × List Meas)
  ms' : List Meas
  holds : Holds s m' closed' ms'
  kept : contents closed' ms' ++ left ≡ before ++ begin
  enough : roomy ⊎ (length begin ≡ 0) → length begin ≤ rounds → left ≡ []

module _ (s : ℕ) (lim : Limits) (small : s ≤ 8) where
  rest_or_room :
      (w : ℕ) (begin : List Meas) (room : Type 0)
      → (w ≡ length begin) ⊎ room
      → room ⊎ (length (drop w begin) ≡ 0)
  rest_or_room w begin room (inl e) = inr (omega (arith, length-drop_le w begin))
  rest_or_room w begin room (inr r) = inl r

  Written-round :
      (rounds w : ℕ) (begin left : List Meas) (m m₁ m' : Manager)
      (closed : List (PageName × List Meas)) (ms : List Meas) (roomy : Type 0)
      (h : Holds s m closed ms)
      → (r : Round s m₁ closed ms begin w roomy) → 0 < length begin
      → Written s rounds m'
          (contents r.closed' r.ms')
          (drop w begin)
          left
          (meas_bytes + s ≤ gap r.holds.page)
      → Written s (suc rounds) m' (contents closed ms) begin left roomy
  Written-round rounds w begin left m m₁ m' closed ms roomy h r pos v = record {
    closed' = v.closed';
    ms' = v.ms';
    holds = v.holds;
    kept =
        v.kept
        ∙ ap (λ xs. xs ++ drop w begin) r.kept
        ∙ append_assoc (contents closed ms) (take w begin) (drop w begin)
        ∙ ap (λ xs. contents closed ms ++ xs) (take-drop_append w begin);
    enough = λ room most.
        v.enough (rest_or_room w begin (meas_bytes + s ≤ gap r.holds.page) r.all_or_room)
          (elim room [
            | inl y ↦ omega (arith, length-drop_le w begin, r.some_written y pos)
            | inr y ↦ absurd (omega (arith, y, pos))
          ]);
  }

  Written-stop :
      (rounds : ℕ) (begin left : List Meas) (m m' : Manager) (closed : List (PageName × List Meas))
      (ms : List Meas)
      → (h : Holds s m closed ms)
      → ◌≡◌ {A = Result (Manager × List Meas)} (ok (m, begin)) (ok (m', left))
      → (length begin ≤ rounds → begin ≡ [])
      → Written s rounds m' (contents closed ms) begin left (meas_bytes + s ≤ gap h.page)
  Written-stop rounds begin left m m' closed ms h e none_left =
      subst
        (λ (x : Manager × List Meas).
          Written s rounds x.0 (contents closed ms) begin x.1 (meas_bytes + s ≤ gap h.page))
        (ok-injective (m, begin) (m', left) e)
        (record {
          closed' = closed;
          ms' = ms;
          holds = h;
          kept = refl;
          enough = λ room most. none_left most;
        })

  write_loop-Written :
      (rounds : ℕ) (begin left : List Meas) (m m' : Manager) (closed : List (PageName × List Meas))
      (ms : List Meas)
      → All (HasSize s) begin
      → (h : Holds s m closed ms) → write_loop rounds lim begin m ≡ ok (m', left)
      → Written s rounds m' (contents closed ms) begin left (meas_bytes + s ≤ gap h.page)
  unfolding write_loop
  write_loop-Written rounds [] left m m' closed ms z h e =
      Written-stop rounds [] left m m' closed ms h e (λ most. refl)
  write_loop-Written zero (x ∷ xs) left m m' closed ms z h e =
      Written-stop zero (x ∷ xs) left m m' closed ms h e (λ most. absurd (omega arith))
  write_loop-Written (suc rounds) (x ∷ xs) left m m' closed ms z h e =
      let next : Manager × ℕ → Result (Manager × List Meas) =
        λ r. write_loop rounds lim (drop r.1 (x ∷ xs)) r.0 in
      let ((m₁, w), e₁, e₂) = >>=-eq-ok (write_round lim (x ∷ xs) m) next {y = (m', left)} e in
      let r = write_round-Round s lim (x ∷ xs) small z m closed ms h m₁ w e₁ in
      Written-round rounds w (x ∷ xs) left m m₁ m' closed ms (meas_bytes + s ≤ gap h.page) h r
        (omega arith)
        (write_loop-Written rounds (drop w (x ∷ xs)) left m₁ m' r.closed' r.ms'
          (All-drop (HasSize s) w (x ∷ xs) z) r.holds e₂)

  finish :
      (rounds : ℕ) (begin left : List Meas) (m' : Manager) (before : List Meas) (roomy : Type 0)
      → Written s rounds m' before begin left roomy
      → left ≡ []
      → (left ≡ [])
        × (closed' : List (PageName × List Meas)) × (ms' : List Meas) × Holds s m' closed' ms'
        × (contents closed' ms' ≡ before ++ begin)
  finish rounds begin left m' before roomy v none_left = (
    none_left,
    v.closed',
    v.ms',
    v.holds,
    sym (append-nil (contents v.closed' v.ms'))
        ∙ ap (λ xs. contents v.closed' v.ms' ++ xs) (sym none_left)
        ∙ v.kept,
  )

  -- The writer's loop, when no flush of an index fails on the way: what its pages show afterwards, in
  -- the order of the pages, is what they showed before and then the measurements of the array,
  -- each once and in order; and rounds one more than there are measurements are enough for all.
  -- The measurements have values of `s` bytes, `s` at most eight, and the pages are of a size that
  -- such measurements fill up and that takes at least one.
  pub write_loop-contents :
      (rounds : ℕ) (begin left : List Meas) (m m' : Manager) (closed : List (PageName × List Meas))
      (ms : List Meas)
      → All (HasSize s) begin
      → Holds s m closed ms
      → length begin < rounds
      → write_loop rounds lim begin m ≡ ok (m', left)
      → (left ≡ [])
        × (closed' : List (PageName × List Meas)) × (ms' : List Meas) × Holds s m' closed' ms'
        × (contents closed' ms' ≡ contents closed ms ++ begin)
  unfolding write_loop
  write_loop-contents zero begin left m m' closed ms z h lt e = absurd (omega arith)
  write_loop-contents (suc rounds) [] left m m' closed ms z h lt e =
      let v = Written-stop (suc rounds) [] left m m' closed ms h e (λ most. refl) in
      finish (suc rounds) [] left m' (contents closed ms) (meas_bytes + s ≤ gap h.page) v
        (v.enough (inr refl) (omega arith))
  write_loop-contents (suc rounds) (x ∷ xs) left m m' closed ms z h lt e =
      let next : Manager × ℕ → Result (Manager × List Meas) =
        λ r. write_loop rounds lim (drop r.1 (x ∷ xs)) r.0 in
      let ((m₁, w), e₁, e₂) = >>=-eq-ok (write_round lim (x ∷ xs) m) next {y = (m', left)} e in
      let r = write_round-Round s lim (x ∷ xs) small z m closed ms h m₁ w e₁ in
      let v =
        write_loop-Written rounds (drop w (x ∷ xs)) left m₁ m' r.closed' r.ms'
          (All-drop (HasSize s) w (x ∷ xs) z) r.holds e₂ in
      finish (suc rounds) (x ∷ xs) left m' (contents closed ms) (meas_bytes + s ≤ gap h.page)
        (Written-round rounds w (x ∷ xs) left m m₁ m' closed ms (meas_bytes + s ≤ gap h.page) h r
          (omega arith) v)
        (v.enough (rest_or_room w (x ∷ xs) (meas_bytes + s ≤ gap r.holds.page) r.all_or_room)
          (omega (arith, length-drop_le w (x ∷ xs))))

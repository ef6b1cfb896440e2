-- ===== src/WriteWindow/Reload.antt =====
-- A write window that is written slot by slot, and put together again by `Page::updateWriteWindow` of
-- libnkvdb/page.cpp.
use nkvdb.Prelude.{
  ℕ, zero, suc, ◌+◌, ◌-◌, ◌<◌, ◌≡◌, refl, sym, ◌⊎◌, inl, inr, List, [], ◌∷◌, ◌++◌, length,
  length-append, length-replicate, get_or, set, replicate, arith, dec_lt, ap, ◌∙◌,
}
use mathlib.Core.List.{append_assoc}
use nkvdb.Meas.{Meas, empty}
use nkvdb.WriteWindow.{resize, update, update_all}
use nkvdb.WriteWindow.Latest.{take_all}

-- The slots from position `i` on: each has the measurement of its id or was never written, and the
-- last has one.
abbrev pub IsWindow : ℕ → List Meas → Type 0
IsWindow i [] = ⊥
IsWindow i (m ∷ []) = m.id ≡ i
IsWindow i (m ∷ n ∷ ms) = ((m.id ≡ i) ⊎ (m ≡ empty)) × IsWindow (suc i) (n ∷ ms)

set_append :
    (xs : List Meas) (k : ℕ) (m : Meas)
    → set (xs ++ replicate (suc k) empty) (length xs + k) m ≡ xs ++ (replicate k empty ++ m ∷ [])
set_append [] zero m = refl
set_append [] (suc k) m =
    let z : 0 + suc k ≡ suc (0 + k) = omega arith in
    rw z (ap (λ ys. empty ∷ ys) (set_append [] k m))
set_append (x ∷ xs) k m =
    let z : suc (length xs) + k ≡ suc (length xs + k) = omega arith in
    rw z (ap (λ ys. x ∷ ys) (set_append xs k m))

update_past :
    (xs : List Meas) (k : ℕ) (m : Meas)
    → m.id ≡ length xs + k
    → update m xs ≡ xs ++ (replicate k empty ++ m ∷ [])
unfolding update
update_past xs k m e =
    let d : m.id + 1 - length xs ≡ suc k = omega arith in
    let long : set (resize (m.id + 1) xs) m.id m ≡ xs ++ (replicate k empty ++ m ∷ []) =
      rw (take_all xs (m.id + 1) (omega arith), d)
        (ap (λ j. set (xs ++ replicate (suc k) empty) j m) e ∙ set_append xs k m) in
    ground (arith, long)

-- An empty measurement changes no window but the one with no slots.
update-empty : (x : Meas) (xs : List Meas) → update empty (x ∷ xs) ≡ x ∷ xs
unfolding update
update-empty x xs = ground arith

replicate_snoc :
    (k : ℕ) (ms : List Meas) → replicate k empty ++ empty ∷ ms ≡ replicate (suc k) empty ++ ms
replicate_snoc zero ms = refl
replicate_snoc (suc k) ms = ap (λ ys. empty ∷ ys) (replicate_snoc k ms)

IsWindow-at : (i j : ℕ) (ms : List Meas) → i ≡ j → IsWindow i ms → IsWindow j ms
IsWindow-at i j ms e h = rw (sym e) h

reload_rest :
    (x : Meas) (xs : List Meas) (k : ℕ) (ms : List Meas)
    → IsWindow (length (x ∷ xs) + k) ms
    → update_all ms (x ∷ xs) ≡ (x ∷ xs) ++ (replicate k empty ++ ms)
unfolding update_all
reload_rest x xs k [] h = absurd h
reload_rest x xs k (m ∷ []) h = update_past (x ∷ xs) k m h
reload_rest x xs k (m ∷ n ∷ ms) (inl e, h) =
    ap (update_all (n ∷ ms)) (update_past (x ∷ xs) k m e)
    ∙ (reload_rest x (xs ++ (replicate k empty ++ m ∷ [])) 0 (n ∷ ms) (
          IsWindow-at (suc (length (x ∷ xs) + k))
            (length (x ∷ xs ++ (replicate k empty ++ m ∷ [])) + 0) (n ∷ ms)
            (omega (
              arith,
              length-append xs (replicate k empty ++ m ∷ []),
              length-append (replicate k empty) (m ∷ []),
              length-replicate k empty,
            ))
            h)
        ∙ ap (λ ys. x ∷ ys)
            (append_assoc xs (replicate k empty ++ m ∷ []) (n ∷ ms)
              ∙ ap (λ ys. xs ++ ys) (append_assoc (replicate k empty) (m ∷ []) (n ∷ ms))))
reload_rest x xs k (m ∷ n ∷ ms) (inr e, h) =
    ap (λ (m : Meas). update_all (n ∷ ms) (update m (x ∷ xs))) e
    ∙ ap (update_all (n ∷ ms)) (update-empty x xs)
    ∙ reload_rest x xs (suc k) (n ∷ ms)
        (IsWindow-at (suc (length (x ∷ xs) + k)) (length (x ∷ xs) + suc k) (n ∷ ms) (omega arith) h)
    ∙ ap (λ ys. (x ∷ xs) ++ ys)
        (sym (replicate_snoc k (n ∷ ms))
          ∙ ap (λ (y : Meas). replicate k empty ++ y ∷ n ∷ ms) (sym e))

-- Updates of a window with no slots by the slots of one, in order, give that one.
pub reload : (ms : List Meas) → IsWindow 0 ms → update empty (update_all ms []) ≡ ms
unfolding update_all
reload [] h = absurd h
reload (m ∷ []) h = ap (update empty) (update_past [] 0 m h) ∙ update-empty m []
reload (m ∷ n ∷ ms) (inl e, h) =
    ap (λ ww. update empty (update_all (n ∷ ms) ww)) (update_past [] 0 m e)
    ∙ ap (update empty) (reload_rest m [] 0 (n ∷ ms) h)
    ∙ update-empty m (n ∷ ms)
reload (m ∷ n ∷ ms) (inr e, h) =
    ap (λ (y : Meas). update empty (update_all (n ∷ ms) (update y []))) e
    ∙ ap (λ ww. update empty (update_all (n ∷ ms) ww)) (update_past [] 0 empty refl)
    ∙ ap (update empty) (reload_rest empty [] 0 (n ∷ ms) h)
    ∙ update-empty empty (n ∷ ms)
    ∙ ap (λ (y : Meas). y ∷ n ∷ ms) (sym e)

set-IsWindow :
    (i : ℕ) (ww : List Meas) (j : ℕ) (m : Meas)
    → m.id ≡ i + j
    → j < length ww
    → IsWindow i ww
    → IsWindow i (set ww j m)
set-IsWindow i [] j m e l h = h
set-IsWindow i (x ∷ []) zero m e l h = omega arith
set-IsWindow i (x ∷ []) (suc j) m e l h = absurd (omega arith)
set-IsWindow i (x ∷ y ∷ ww) zero m e l h = (inl (omega arith), h.1)
set-IsWindow i (x ∷ y ∷ ww) (suc zero) m e l h =
    (h.0, set-IsWindow (suc i) (y ∷ ww) zero m (omega arith) (omega arith) h.1)
set-IsWindow i (x ∷ y ∷ ww) (suc (suc j)) m e l h =
    (h.0, set-IsWindow (suc i) (y ∷ ww) (suc j) m (omega arith) (omega arith) h.1)

padded-IsWindow : (i k : ℕ) (m : Meas) → m.id ≡ i + k → IsWindow i (replicate k empty ++ m ∷ [])
padded-IsWindow i zero m e = omega arith
padded-IsWindow i (suc zero) m e = (inr refl, omega arith)
padded-IsWindow i (suc (suc k)) m e = (inr refl, padded-IsWindow (suc i) (suc k) m (omega arith))

append-IsWindow :
    (i : ℕ) (ww zs : List Meas)
    → IsWindow i ww
    → IsWindow (i + length ww) zs
    → IsWindow i (ww ++ zs)
append-IsWindow i [] zs h g = absurd h
append-IsWindow i (x ∷ []) [] h g = absurd g
append-IsWindow i (x ∷ []) (z ∷ zs) h g =
    (inl h, IsWindow-at (i + 1) (suc i) (z ∷ zs) (omega arith) g)
append-IsWindow i (x ∷ y ∷ ww) zs h g = (
  h.0,
  append-IsWindow (suc i) (y ∷ ww) zs h.1
      (IsWindow-at (i + length (x ∷ y ∷ ww)) (suc i + length (y ∷ ww)) zs (omega arith) g),
)

update_in :
    (m : Meas) (ww : List Meas) → m.id < length ww → IsWindow 0 ww → IsWindow 0 (update m ww)
unfolding update
update_in m ww d h = elim (dec_lt (get_or ww m.id empty).time m.time) [
  | yes t ↦
      let e : update m ww ≡ set ww m.id m = ground (arith, d, t) in
      rw e (set-IsWindow 0 ww m.id m (omega arith) d h)
  | no t ↦ let e : update m ww ≡ ww = ground (arith, d, t) in rw e h
]

-- `updateWriteWindow` keeps the form of a window, and gives it to one with no slots.
pub update-IsWindow :
    (m : Meas) (ww : List Meas) → (ww ≡ []) ⊎ IsWindow 0 ww → IsWindow 0 (update m ww)
update-IsWindow m ww (inl e) =
    rw (e, update_past [] m.id m (omega arith)) (padded-IsWindow 0 m.id m (omega arith))
update-IsWindow m ww (inr h) = elim (dec_lt m.id (length ww)) [
  | yes d ↦ update_in m ww d h
  | no d ↦
      let k = m.id - length ww in
      rw (update_past ww k m (omega (arith, d))) (
        append-IsWindow 0 ww (replicate k empty ++ m ∷ []) h
          (padded-IsWindow (0 + length ww) k m (omega (arith, d))))
]

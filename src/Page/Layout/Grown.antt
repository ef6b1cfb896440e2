-- ===== src/Page/Layout/Grown.antt =====
-- The layout of a page after `append(PMeas, size_t)` of libnkvdb/page.cpp.
use nkvdb.Prelude.{ℕ, ◌+◌, ◌*◌, ◌≤◌, ◌≡◌, List, arith, ap, sym, ◌∙◌, All, get_or}
use mathlib.Core.Path.{subst}
use nkvdb.Prelude.Result.{ok, >>=-eq-ok}
use nkvdb.Meas.{Meas, AppendResult, empty}
use nkvdb.Index.{Index}
use nkvdb.Page.{Page, meas_bytes, update_min_max}
use nkvdb.Page.Append.{batch_loop, batch_end, batch_begin, batch_times, append_array}
use nkvdb.Page.Rounds.{batch_end_cases}
use nkvdb.Page.Layout.{IsSound}
use nkvdb.Page.Layout.Fill.{gap, HasSize, FitsSize, batch_loop-Kept, begin-Kept}

-- Two pages with the same layout.
record SameLayout (p q : Page) : Type 0 where
  records : q.records ≡ p.records
  positions : q.header.write_pos ≡ p.header.write_pos
  values : q.header.write_value_pos ≡ p.header.write_value_pos
  sizes : q.header.size ≡ p.header.size

times-SameLayout :
    (begin : List Meas) (n : ℕ) (ix : Index) (p : Page)
    → SameLayout p (batch_times begin n (record p { index = ix }))
unfolding batch_times update_min_max
times-SameLayout begin n ix p = record {
  records = ground arith;
  positions = ground arith;
  values = ground arith;
  sizes = ground arith;
}

SameLayout-IsSound : (p q : Page) → SameLayout p q → IsSound p → IsSound q
SameLayout-IsSound p q e s = record {
  apart = omega (arith, s.apart, e.positions, e.values);
  inside = omega (arith, s.inside, e.sizes, e.values);
  small = omega (arith, s.small, e.sizes);
  behind = λ i h. rw (e.records, e.values, e.sizes) (s.behind i (omega (arith, e.positions)));
  stacked = λ i j h k. rw e.records (s.stacked i j h (omega (arith, e.positions)));
}

-- An append that returns leaves the page sound, and takes the room of what it has written.
pub record Grown (s : ℕ) (p q : Page) (writed : ℕ) : Type 0 where
  pub sound : IsSound q
  pub fits : FitsSize s q
  pub moved : q.header.write_pos ≡ p.header.write_pos + writed
  pub left : gap q + writed * (meas_bytes + s) ≡ gap p

pub append_array-Grown :
    (s fuel : ℕ) (begin : List Meas) (p q : Page) (r : AppendResult)
    → append_array fuel begin p ≡ ok (q, r)
    → s ≤ 8
    → All (HasSize s) begin
    → IsSound p
    → FitsSize s p
    → Grown s p q r.writed
unfolding append_array
append_array-Grown s fuel begin p q r e small z sound fits =
    let (b, e₁, e₂) =
      >>=-eq-ok (batch_loop fuel begin begin (batch_begin p)) (batch_end fuel begin) {y = (q, r)}
        e in
    let (c, l, d) =
      batch_loop-Kept s fuel begin begin p (batch_begin p) b small z (omega arith)
        (λ k. ap (λ i. get_or begin i empty) (omega arith)) (begin-Kept s begin p sound fits) e₁ in
    let (ix, e₃, e₄) = batch_end_cases fuel begin b q r e₂ in
    let same = times-SameLayout begin b.writed ix b.page in
    let kept : SameLayout b.page q = subst (SameLayout b.page) (sym e₃) same in
    let g : gap q ≡ gap b.page = omega (arith, kept.positions, kept.values) in
    let w = e₄ ∙ c.counted in
    record {
      sound = SameLayout-IsSound b.page q kept c.sound;
      fits = rw g c.fits;
      moved = omega (arith, kept.positions, c.moved, w);
      left = rw (g, w) c.left;
    }

-- ===== src/Writer/View.antt =====
-- The measurements that a page of libnkvdb/page.cpp shows to its readers, and what appends make of
-- them.
use nkvdb.Prelude.{
  ℕ, zero, suc, ◌+◌, ◌-◌, ◌*◌, ◌/◌, ◌%◌, ◌^◌, ◌≤◌, ◌<◌, ◌≡◌, refl, sym, ap, ◌∙◌, List, [], ◌∷◌,
  ◌++◌, some, none, arith, length, length-append, get_or, take, All, dec_lt,
}
use nkvdb.Prelude.Result.{ok}
use native.Mathlib.Nat.{add-mul-div_right}
use nkvdb.Meas.{Meas, empty, AppendResult}
use nkvdb.Page.{Page, read, meas_bytes, init_header, header_bytes}
use nkvdb.Page.Append.{append_array}
use nkvdb.Page.Layout.{IsSound}
use nkvdb.Page.Layout.ReadBack.{read_back}
use nkvdb.Page.Layout.Fill.{gap, HasSize, FitsSize, append_array-read}
use nkvdb.Page.Layout.Grown.{append_array-Grown}
use nkvdb.Page.Files.{create}
use nkvdb.Manager.Switch.{KeepsContent}

-- The page has as many measurements as the list, and reading gives those.
pub record Shows (p : Page) (ms : List Meas) : Type 0 where
  pub count : p.header.write_pos ≡ length ms
  pub reads : (k : ℕ) → k < length ms → read k p ≡ ok (some (read_back (get_or ms k empty)))

get_or-append_left :
    (xs ys : List Meas) (k : ℕ) → k < length xs → get_or (xs ++ ys) k empty ≡ get_or xs k empty
get_or-append_left [] ys k h = absurd (omega arith)
get_or-append_left (x ∷ xs) ys zero h = refl
get_or-append_left (x ∷ xs) ys (suc k) h = get_or-append_left xs ys k (omega arith)

get_or-append_right :
    (xs ys : List Meas) (k : ℕ) → get_or (xs ++ ys) (length xs + k) empty ≡ get_or ys k empty
get_or-append_right [] ys k = ap (λ j. get_or ys j empty) (omega arith)
get_or-append_right (x ∷ xs) ys k =
    let z : suc (length xs) + k ≡ suc (length xs + k) = omega arith in
    rw z (get_or-append_right xs ys k)

get_or-take :
    (n : ℕ) (xs : List Meas) (k : ℕ) → k < n → get_or (take n xs) k empty ≡ get_or xs k empty
get_or-take zero xs k h = absurd (omega arith)
get_or-take (suc n) [] k h = refl
get_or-take (suc n) (x ∷ xs) zero h = refl
get_or-take (suc n) (x ∷ xs) (suc k) h = get_or-take n xs k (omega arith)

length-take_le : (n : ℕ) (xs : List Meas) → n ≤ length xs → length (take n xs) ≡ n
length-take_le zero xs h = refl
length-take_le (suc n) [] h = absurd (omega arith)
length-take_le (suc n) (x ∷ xs) h = ap suc (length-take_le n xs (omega arith))

one_fits : (n k : ℕ) → k ≤ n → 0 < k → 0 < n / k
one_fits n k h pos =
    let e : n ≡ n - k + 1 * k = omega arith in
    let q : n / k ≡ (n - k) / k + 1 = ap (λ x. x / k) e ∙ add-mul-div_right (n - k) 1 pos in
    omega (arith, q)

-- What an append adds to the view.
pub record Added (s : ℕ) (p q : Page) (ms begin : List Meas) (w : ℕ) : Type 0 where
  pub shows : Shows q (ms ++ take w begin)
  pub sound : IsSound q
  pub fits : FitsSize s q
  pub most : w ≤ length begin
  pub some_written : meas_bytes + s ≤ gap p → 0 < length begin → 0 < w

pub append_array-Added :
    (s fuel : ℕ) (begin : List Meas) (p q : Page) (r : AppendResult) (ms : List Meas)
    → append_array fuel begin p ≡ ok (q, r)
    → s ≤ 8
    → All (HasSize s) begin
    → IsSound p
    → FitsSize s p
    → Shows p ms
    → Added s p q ms begin r.writed
append_array-Added s fuel begin p q r ms e small sizes sound fits shows =
    let g = append_array-Grown s fuel begin p q r e small sizes sound fits in
    let (count, new, old) = append_array-read s fuel begin p q r e small sizes sound fits in
    let most : r.writed ≤ length begin = omega (arith, count) in
    let len : length (ms ++ take r.writed begin) ≡ length ms + r.writed =
      omega (arith, length-append ms (take r.writed begin), length-take_le r.writed begin most) in
    record {
      shows = record {
        count = omega (arith, g.moved, shows.count, len);
        reads = λ k h. elim (dec_lt k (length ms)) [
          | yes d ↦
              old k (omega (arith, shows.count))
              ∙ shows.reads k d
              ∙ ap (λ m. ok (some (read_back m)))
                  (sym (get_or-append_left ms (take r.writed begin) k d))
          | no d ↦
              let j = k - length ms in
              let at : p.header.write_pos + j ≡ k = omega (arith, shows.count, d) in
              let at' : length ms + j ≡ k = omega (arith, d) in
              let there : read k q ≡ ok (some (read_back (get_or begin j empty))) =
                ap (λ i. read i q) (sym at) ∙ new j (omega (arith, len)) in
              let same : get_or (ms ++ take r.writed begin) k empty ≡ get_or begin j empty =
                ap (λ i. get_or (ms ++ take r.writed begin) i empty) (sym at')
                ∙ get_or-append_right ms (take r.writed begin) j
                ∙ get_or-take r.writed begin j (omega (arith, len)) in
              there ∙ ap (λ m. ok (some (read_back m))) (sym same)
        ];
      };
      sound = g.sound;
      fits = g.fits;
      most = most;
      some_written =
          λ room pos. omega (arith, count, one_fits (gap p) (meas_bytes + s) room (omega arith));
    }

-- A page that was closed shows the same.
pub KeepsContent-Shows : (p q : Page) (ms : List Meas) → KeepsContent p q → Shows p ms → Shows q ms
unfolding read
KeepsContent-Shows p q ms c s = record {
  count = c.write_pos ∙ s.count;
  reads = λ k h. rw (c.records, c.bytes, c.write_pos) (s.reads k h);
}

-- A new page shows nothing, is sound, and is all room but for its header.
pub record IsNew (s : ℕ) (p : Page) : Type 0 where
  pub shows : Shows p []
  pub sound : IsSound p
  pub fits : FitsSize s p
  pub room : meas_bytes + s ≤ gap p

-- Sizes of pages that measurements with values of `s` bytes fill up, and that take at least one.
pub record IsPageSize (s size : ℕ) : Type 0 where
  pub enough : header_bytes + meas_bytes + s ≤ size
  pub small : size < 2 ^ 63
  pub whole : (size - header_bytes) % (meas_bytes + s) < meas_bytes

pub create-IsNew :
    (s size : ℕ) (ww : List Meas)
    → IsPageSize s size
    → IsNew s (record (create size none) { window = ww })
unfolding create init_header
create-IsNew s size ww z = record {
  shows = record { count = refl; reads = λ k h. absurd (omega arith) };
  sound = record {
    apart = omega (arith, z.enough);
    inside = omega arith;
    small = z.small;
    behind = λ i h. absurd (omega arith);
    stacked = λ i j h k. absurd (omega arith);
  };
  fits =
      let e : size - (header_bytes + meas_bytes * 0) ≡ size - header_bytes = omega arith in
      rw e z.whole;
  room = omega (arith, z.enough);
}

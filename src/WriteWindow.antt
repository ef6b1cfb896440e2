-- ===== src/WriteWindow.antt =====
-- include/writewindow.h, libnkvdb/writewindow.cpp and `Page::updateWriteWindow` of
-- libnkvdb/page.cpp: the latest measurement of each id, at the position of the id.
pub mod Latest
pub mod Reload
mod Tests
use nkvdb.Prelude.{
  ℕ, ◌+◌, ◌-◌, List, [], ◌∷◌, ◌++◌, length, get_or, set, take, replicate, ltb, leb, if◌then◌else◌,
}
use nkvdb.Meas.{Meas, empty}

abbrev pub WriteWindow : Type 0
WriteWindow = List Meas

-- `operator[] const`: an empty measurement past the end.
unfoldable pub slot : WriteWindow → ℕ → Meas
slot ww pos = if leb (length ww) pos then empty else get_or ww pos empty

-- `std::vector::resize`.
abbrev pub resize : ℕ → WriteWindow → WriteWindow
resize n ww = take n ww ++ replicate (n - length ww) empty

-- `operator=`, which copies element by element over a cleared and resized vector.
unfoldable pub copy_loop : List Meas → ℕ → WriteWindow → WriteWindow
copy_loop [] i ww = ww
copy_loop (m ∷ ms) i ww = copy_loop ms (i + 1) (set ww i m)

unfoldable pub assign : WriteWindow → WriteWindow → WriteWindow
unfolding copy_loop
assign ww [] = []
assign ww (m ∷ ms) = copy_loop (m ∷ ms) 0 (resize (length (m ∷ ms)) [])

-- `Page::updateWriteWindow`. An id is below 2^64 - 1, so that `m.id + 1` does not wrap.
unfoldable pub update : Meas → WriteWindow → WriteWindow
update m ww =
    if leb (length ww) m.id
    then set (resize (m.id + 1) ww) m.id m
    else if ltb (get_or ww m.id empty).time m.time
    then set ww m.id m
    else ww

unfoldable pub update_all : List Meas → WriteWindow → WriteWindow
update_all [] ww = ww
update_all (m ∷ ms) ww = update_all ms (update m ww)

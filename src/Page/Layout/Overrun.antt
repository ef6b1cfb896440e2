-- ===== src/Page/Layout/Overrun.antt =====
-- `isFull` of libnkvdb/page.cpp when a value does not fit any more.
use nkvdb.Prelude.{◌≤◌, ◌<◌, ◌≡◌, false, arith}
use nkvdb.Meas.{Meas}
use nkvdb.Page.{Page, is_full}
use nkvdb.Page.Append.{store}
use nkvdb.Page.Layout.{IsSound, records_end, HasRoom}

-- A sound page that is not full may lack the room for a value of up to 16 bytes. Storing such a
-- measurement makes the two areas meet, and the page does not count as full after it either, as
-- the difference of their ends wraps.
pub store-overruns :
    (m : Meas) (p : Page)
    → IsSound p
    → m.size ≤ 16
    → is_full p ≡ false
    → ¬ HasRoom m p
    → ((store m p).header.write_value_pos < records_end (store m p)) × (is_full (store m p) ≡ false)
unfolding is_full store
store-overruns m p s z e n = ground (arith, s.apart, s.inside, s.small)

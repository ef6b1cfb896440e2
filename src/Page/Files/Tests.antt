-- ===== src/Page/Files/Tests.antt =====
-- A page of libnkvdb/page.cpp that is closed and opened, and instances of the theorems about it.
use nkvdb.Prelude.{◌+◌, ◌≡◌, refl, true, false, [], some, none, length, replicate, inl}
use nkvdb.Prelude.Result.{Result, ok, err, exception}
use nkvdb.Meas.{Meas}
use nkvdb.Index.{make_index, flush}
use nkvdb.WriteWindow.{update}
use nkvdb.WriteWindow.Reload.{update-IsWindow}
use nkvdb.Page.{Page, init_header, close}
use nkvdb.Page.Files.{create, open_page}
use nkvdb.Page.Files.Reopen.{close-open_page, open_page_excludes}

abbrev sample : Meas
sample = record { id = 2; time = 5; source = 1; flag = 2; value = replicate 16 0; size = 8 }

-- A page whose window has a measurement.
abbrev page : Page
page = record (create 416 none) { window = update sample [] }

abbrev page_of : Result Page → Page
page_of (ok p) = p
page_of (err e) = page

abbrev shut : Page
shut = page_of (close 3 page)

close-open_page_example :
    (r : Page) × (open_page false (some shut) ≡ ok r)
    × (r.records ≡ page.records)
    × (r.bytes ≡ page.bytes)
    × (r.window ≡ update sample [])
    × (r.header ≡ record (page.header) {
      is_open = true;
      readers_count = 0;
      write_window_size = length (update sample []);
    })
    × (r.index.pending ≡ [])
unfolding close create init_header make_index flush
close-open_page_example =
    close-open_page 3 page shut refl refl refl (update-IsWindow sample [] (inl refl))

abbrev held : Page
held = page_of (open_page false (some shut))

open_page_excludes_example :
    (open_page false (some held) ≡ err exception)
    × ((r : Page) × (open_page true (some held) ≡ ok r)
        × (r.header.readers_count ≡ held.header.readers_count + 1)
        × (r.header.is_open ≡ true))
unfolding open_page close create init_header make_index flush
open_page_excludes_example = open_page_excludes (some shut) held refl

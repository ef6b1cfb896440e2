-- ===== src/Page/Hidden.antt =====
-- The filters of the index records that `append(PMeas, size_t)` of libnkvdb/page.cpp writes.
use nkvdb.Meas.{Meas}

-- ===== src/Examples/Statuses.antt =====
-- Changes of the reading status, on the sample rows.
use jinbocho_catalog_v.Base.{◌≡◌, refl, arith, some}
use jinbocho_catalog_v.Domain.Book.{read}
use jinbocho_catalog_v.Catalog.ReadRepo.{has_read}
use jinbocho_catalog_v.Catalog.Invariant.{IsConsistent}
use jinbocho_catalog_v.Catalog.ReadingStatus.{UpdateReadingStatusInput, mark, update_reading_status}
use jinbocho_catalog_v.Catalog.ReadingStatus.Effects.{status_in, update_reading_status-view}
use jinbocho_catalog_v.Catalog.ReadingStatus.Keeps.{update_reading_status-IsConsistent}
use jinbocho_catalog_v.Base.{◌||◌}
use jinbocho_catalog_v.Base.Member.{same_pair}
use jinbocho_catalog_v.Catalog.Reads.{mark_book_read}
use jinbocho_catalog_v.Catalog.Reads.Marks.{mark_book_read-reads}
use jinbocho_catalog_v.Examples.{catalog}

-- User 7, who gave copy 10 up, has read it after all.
abbrev finish : UpdateReadingStatusInput
finish = record { book_id = 10; library_id = 1; changed_by = 7; reading_status = read }

pub catalog-IsConsistent : IsConsistent catalog
catalog-IsConsistent = record {
  in_step = (refl, (refl, (refl, tt)));
  exclusive = λ book user. ground arith;
}

update_reading_status-view_example :
    status_in (update_reading_status finish 99 catalog).1 10 7 ≡ some read
unfolding update_reading_status mark
update_reading_status-view_example = (update_reading_status-view finish 99 catalog refl).0

update_reading_status-IsConsistent_example :
    IsConsistent (update_reading_status finish 99 catalog).1
update_reading_status-IsConsistent_example =
    update_reading_status-IsConsistent finish 99 catalog catalog-IsConsistent

-- User 7, who gave copy 10 up, marks it as read.
mark_book_read-reads_example :
    let s' = (mark_book_read 10 1 7 (some 50) 99 catalog).1 in
    (has_read 10 7 s'.reads ≡ (same_pair 10 7 10 7 || has_read 10 7 catalog.reads))
    × (s'.abandonments ≡ catalog.abandonments)
unfolding mark_book_read
mark_book_read-reads_example = mark_book_read-reads 10 1 7 (some 50) 99 catalog 10 7 refl

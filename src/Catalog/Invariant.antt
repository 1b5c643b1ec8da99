-- ===== src/Catalog/Invariant.antt =====
-- The invariant of the reading state: what the comments of update_reading_status.py promise of the
-- stored column and of the two tables of members' rows.
use jinbocho_catalog_v.Base.{ℕ, ◌≡◌, false, List, [], ◌∷◌, arith, All, ◌&&◌}
use jinbocho_catalog_v.Domain.Book.{OwnedBook}
use jinbocho_catalog_v.Domain.Activity.{BookRead, BookAbandonment}
use jinbocho_catalog_v.Catalog.State.{Catalog}
use jinbocho_catalog_v.Catalog.BookRepo.{save_rows}
use jinbocho_catalog_v.Catalog.ReadRepo.{has_read}
use jinbocho_catalog_v.Catalog.AbandonmentRepo.{has_abandoned}
use jinbocho_catalog_v.Catalog.ReadingStatus.{stored_status}

-- The column says "reading" exactly if someone holds the copy, and "to_read" otherwise.
abbrev pub IsInStep : OwnedBook → Type 0
IsInStep b = b.reading_status ≡ stored_status b.current_reader_id

-- No member has both read and abandoned one copy.
abbrev pub IsExclusive : List BookRead → List BookAbandonment → Type 0
IsExclusive reads abandonments =
    (book user : ℕ) → (has_read book user reads && has_abandoned book user abandonments) ≡ false

pub record IsConsistent (s : Catalog) : Type 0 where
  pub in_step : All IsInStep s.books
  pub exclusive : IsExclusive s.reads s.abandonments

pub save_rows-IsInStep :
    (new : OwnedBook) (books : List OwnedBook)
    → IsInStep new
    → All IsInStep books
    → All IsInStep (save_rows new books)
save_rows-IsInStep new [] h hs = (h, tt)
save_rows-IsInStep new (b ∷ books) h hs = ground (arith, save_rows-IsInStep new books h hs.1)

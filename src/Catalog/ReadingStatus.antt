-- ===== src/Catalog/ReadingStatus.antt =====
-- app/application/use_cases/catalog/update_reading_status.py. "Reading" claims the one physical
-- copy, for the whole library; "read" and "abandoned" are rows of their own, one for each member.
pub mod Marks
pub mod Effects
pub mod Keeps
use jinbocho_catalog_v.Base.{
  ℕ, Bool, true, false, Option, none, some, not, ◌==◌, opt_eq, if◌then◌else◌,
}
use jinbocho_catalog_v.Domain.Book.{
  ReadingStatus, to_read, reading, read, abandoned, OwnedBook, HistoryData, no_data, BookEventType,
  reading_status_for,
}
use jinbocho_catalog_v.Domain.Errors.{lookup_error, permission_error}
use jinbocho_catalog_v.Exec.{Exec, pure, or_raise, raise_if, ◌>>=◌, ◌>>◌}
use jinbocho_catalog_v.Catalog.State.{Catalog}
use jinbocho_catalog_v.Catalog.BookRepo
use jinbocho_catalog_v.Catalog.ReadRepo
use jinbocho_catalog_v.Catalog.AbandonmentRepo
use jinbocho_catalog_v.Catalog.HistoryRepo

pub record UpdateReadingStatusInput : Type 0 where
  pub book_id : ℕ
  pub library_id : ℕ
  pub changed_by : ℕ
  pub reading_status : ReadingStatus

-- The copy is let go if the caller holds it.
abbrev pub released : Option ℕ → ℕ → Option ℕ
released reader user = if opt_eq reader (some user) then none else reader

-- The reader after the change, for the status that is asked for.
abbrev pub reader_after : ReadingStatus → Option ℕ → ℕ → Option ℕ
reader_after reading reader user = some user
reader_after _ reader user = released reader user

-- The rows that the change writes.
unfoldable pub mark : ReadingStatus → ℕ → ℕ → ℕ → Exec Catalog (Unit {0})
unfolding ReadRepo.add ReadRepo.remove AbandonmentRepo.add AbandonmentRepo.remove
mark reading book user now = AbandonmentRepo.remove book user
mark read book user now = do ReadRepo.add book user none now; AbandonmentRepo.remove book user
mark abandoned book user now = do AbandonmentRepo.add book user none now; ReadRepo.remove book user
mark to_read book user now = do ReadRepo.remove book user; AbandonmentRepo.remove book user

-- The column only says whether anyone holds the copy.
abbrev pub stored_status : Option ℕ → ReadingStatus
stored_status none = to_read
stored_status (some reader) = reading

-- The status of a copy as one member sees it now.
unfoldable pub seen_by : OwnedBook → ℕ → Exec Catalog ReadingStatus
unfolding ReadRepo.is_read AbandonmentRepo.is_abandoned
seen_by book user = do
  has_read ← ReadRepo.is_read book.id user
  has_abandoned ← AbandonmentRepo.is_abandoned book.id user
  pure (reading_status_for book has_read has_abandoned)

unfoldable pub update_reading_status : UpdateReadingStatusInput → ℕ → Exec Catalog OwnedBook
unfolding BookRepo.find_by_id BookRepo.save HistoryRepo.save seen_by
update_reading_status inp now = do
  found ← BookRepo.find_by_id inp.book_id
  book ← or_raise found lookup_error
  raise_if (not (book.library_id == inp.library_id)) permission_error
  old_status ← seen_by book inp.changed_by
  let reader = reader_after inp.reading_status book.current_reader_id inp.changed_by
  mark inp.reading_status book.id inp.changed_by now
  saved ← BookRepo.save (record book {
    current_reader_id = reader;
    reading_status = stored_status reader;
    updated_at = now;
  })
  new_status ← seen_by saved inp.changed_by
  HistoryRepo.save (record {
    owned_book_id = saved.id;
    event_type = BookEventType.reading_status_changed;
    changed_by = inp.changed_by;
    old_data = HistoryData.status old_status;
    new_data = HistoryData.status new_status;
    created_at = now;
  })
  pure (record saved { reading_status = new_status })

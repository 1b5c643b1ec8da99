-- ===== src/Catalog/Removal.antt =====
-- app/application/use_cases/catalog/delete_book.py and bulk_delete_books.py.
pub mod Effects
use jinbocho_catalog_v.Base.{ℕ, List, [], ◌∷◌, not, ◌==◌, length}
use jinbocho_catalog_v.Domain.Book.{OwnedBook, HistoryData, BookHistory, BookEventType}
use jinbocho_catalog_v.Domain.Errors.{lookup_error, permission_error}
use jinbocho_catalog_v.Exec.{Exec, pure, or_raise, raise_if, ◌>>=◌, ◌>>◌}
use jinbocho_catalog_v.Catalog.State.{Catalog}
use jinbocho_catalog_v.Catalog.BookRepo
use jinbocho_catalog_v.Catalog.BookRepo.{book_by_id}
use jinbocho_catalog_v.Catalog.HistoryRepo
use jinbocho_catalog_v.Catalog.Position.{distinct, any_missing, any_foreign}

abbrev pub deleted_event : ℕ → ℕ → OwnedBook → BookHistory
deleted_event changed_by now book = record {
  owned_book_id = book.id;
  event_type = BookEventType.deleted;
  changed_by = changed_by;
  old_data = HistoryData.record_id book.bibliographic_record_id;
  new_data = HistoryData.no_data;
  created_at = now;
}

unfoldable pub delete_book : (book_id library_id changed_by now : ℕ) → Exec Catalog (Unit {0})
unfolding BookRepo.find_by_id BookRepo.delete HistoryRepo.save
delete_book book_id library_id changed_by now = do
  found ← BookRepo.find_by_id book_id
  book ← or_raise found lookup_error
  raise_if (not (book.library_id == library_id)) permission_error
  HistoryRepo.save (deleted_event changed_by now book)
  BookRepo.delete book.id

unfoldable pub record_deletions :
    (changed_by now : ℕ) → List OwnedBook → List ℕ → Exec Catalog (Unit {0})
unfolding HistoryRepo.save
record_deletions changed_by now fetched [] = pure tt
record_deletions changed_by now fetched (k ∷ ks) = do
  book ← or_raise (book_by_id k fetched) lookup_error
  HistoryRepo.save (deleted_event changed_by now book)
  record_deletions changed_by now fetched ks

unfoldable pub bulk_delete_books :
    (book_ids : List ℕ) (library_id changed_by now : ℕ) → Exec Catalog ℕ
unfolding BookRepo.find_by_ids BookRepo.delete_by_ids
bulk_delete_books book_ids library_id changed_by now = do
  let requested = distinct book_ids
  books ← BookRepo.find_by_ids requested
  raise_if (any_missing books requested) lookup_error
  raise_if (any_foreign library_id books) permission_error
  record_deletions changed_by now books requested
  BookRepo.delete_by_ids requested
  pure (length requested)

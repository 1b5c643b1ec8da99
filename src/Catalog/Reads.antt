-- ===== src/Catalog/Reads.antt =====
-- app/application/use_cases/catalog/book_reads.py: marking a copy as read, with a date, and taking the
-- mark back. The row that a mark gives back is left out.
pub mod Marks
use jinbocho_catalog_v.Base.{ℕ, Option, List, not, ◌==◌}
use jinbocho_catalog_v.Domain.Errors.{lookup_error, permission_error}
use jinbocho_catalog_v.Exec.{Exec, or_raise, raise_if, ◌>>=◌, ◌>>◌}
use jinbocho_catalog_v.Catalog.State.{Catalog}
use jinbocho_catalog_v.Catalog.BookRepo
use jinbocho_catalog_v.Catalog.ReadRepo

unfoldable pub mark_book_read :
    (book_id library_id user_id : ℕ) → Option ℕ → (now : ℕ) → Exec Catalog (Unit {0})
unfolding BookRepo.find_by_id ReadRepo.add
mark_book_read book_id library_id user_id read_at now = do
  found ← BookRepo.find_by_id book_id
  book ← or_raise found lookup_error
  raise_if (not (book.library_id == library_id)) permission_error
  ReadRepo.add book_id user_id read_at now

unfoldable pub unmark_book_read : (book_id library_id user_id : ℕ) → Exec Catalog (Unit {0})
unfolding BookRepo.find_by_id ReadRepo.remove
unmark_book_read book_id library_id user_id = do
  found ← BookRepo.find_by_id book_id
  book ← or_raise found lookup_error
  raise_if (not (book.library_id == library_id)) permission_error
  ReadRepo.remove book_id user_id

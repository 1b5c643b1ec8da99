-- ===== src/Catalog/BookRepo.antt =====
-- app/infrastructure/repositories/owned_book_repository.py
use jinbocho_catalog_v.Base.{ℕ, Option, List, ◌==◌, ◌&&◌, opt_eq, Bool, contains, is_some}
use jinbocho_catalog_v.Base.Table
use jinbocho_catalog_v.Domain.Book.{OwnedBook}
use jinbocho_catalog_v.Domain.Activity.{BookRead, BookAbandonment, BookLoan, BookRating}
use jinbocho_catalog_v.Catalog.State.{Catalog}
use jinbocho_catalog_v.Exec.{Exec, gets, modify, ◌>>=◌, ◌>>◌, pure}

abbrev pub book_by_id : ℕ → List OwnedBook → Option OwnedBook
book_by_id k books = Table.get (λ (b : OwnedBook). b.id) k books

-- What `save` assigns to a row that is there: every column but the key, the library and `created_at`.
abbrev pub assign : OwnedBook → OwnedBook → OwnedBook
assign old new = record new { library_id = old.library_id; created_at = old.created_at }

abbrev pub save_rows : OwnedBook → List OwnedBook → List OwnedBook
save_rows book books = Table.save (λ (b : OwnedBook). b.id) assign book books

-- The entity that `save` returns is read back from the row.
abbrev pub saved_book : OwnedBook → Option OwnedBook → OwnedBook
saved_book book Option.none = book
saved_book book (Option.some old) = assign old book

unfoldable pub find_by_id : ℕ → Exec Catalog (Option OwnedBook)
find_by_id book_id = gets (λ s. book_by_id book_id s.books)

unfoldable pub find_by_ids : List ℕ → Exec Catalog (List OwnedBook)
find_by_ids book_ids = gets (λ s. Table.select (λ (b : OwnedBook). contains b.id book_ids) s.books)

unfoldable pub find_one_by_record : ℕ → Exec Catalog (Option OwnedBook)
find_one_by_record record_id =
    gets (λ s. Table.find (λ (b : OwnedBook). b.bibliographic_record_id == record_id) s.books)

unfoldable pub exists_by_bibliographic_record_id : ℕ → Exec Catalog Bool
exists_by_bibliographic_record_id record_id =
    gets (λ s.
      is_some (Table.find (λ (b : OwnedBook). b.bibliographic_record_id == record_id) s.books))

-- The place of a copy, level by level; a missing level only matches a missing one.
abbrev pub is_in_slot : (room bookcase section shelf position : Option ℕ) → OwnedBook → Bool
is_in_slot room bookcase section shelf position b =
    opt_eq b.room_id room
    && (opt_eq b.bookcase_id bookcase
        && (opt_eq b.section_id section
            && (opt_eq b.shelf_id shelf && opt_eq b.shelf_position position)))

abbrev pub is_duplicate :
    (library_id record_id : ℕ) (room bookcase section shelf position : Option ℕ) → OwnedBook → Bool
is_duplicate library_id record_id room bookcase section shelf position b =
    b.library_id == library_id
    && (b.bibliographic_record_id == record_id && is_in_slot room bookcase section shelf position b)

unfoldable pub find_duplicate :
    (library_id record_id : ℕ) (room bookcase section shelf position : Option ℕ)
    → Exec Catalog (Option OwnedBook)
find_duplicate library_id record_id room bookcase section shelf position = gets (λ s.
    Table.find (is_duplicate library_id record_id room bookcase section shelf position) s.books)

unfoldable pub save : OwnedBook → Exec Catalog OwnedBook
save book = do
  old ← gets (λ s. book_by_id book.id s.books)
  modify (λ s. record s { books = save_rows book s.books })
  pure (saved_book book old)

-- Rows of reads, abandonments, loans and ratings go with their copy: their foreign keys cascade. The rows
-- of the kids mode that cascade too, and the cycles whose copy is set to null, are not in this state.
abbrev pub without_books : (ℕ → Bool) → Catalog → Catalog
without_books gone s = record s {
  books = Table.delete_where (λ (b : OwnedBook). gone b.id) s.books;
  reads = Table.delete_where (λ (r : BookRead). gone r.owned_book_id) s.reads;
  abandonments = Table.delete_where (λ (a : BookAbandonment). gone a.owned_book_id) s.abandonments;
  loans = Table.delete_where (λ (l : BookLoan). gone l.owned_book_id) s.loans;
  ratings = Table.delete_where (λ (r : BookRating). gone r.owned_book_id) s.ratings;
}

unfoldable pub delete : ℕ → Exec Catalog (Unit {0})
delete book_id = modify (without_books (λ k. k == book_id))

unfoldable pub delete_by_ids : List ℕ → Exec Catalog (Unit {0})
delete_by_ids book_ids = modify (without_books (λ k. contains k book_ids))

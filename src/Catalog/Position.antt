-- ===== src/Catalog/Position.antt =====
-- app/application/use_cases/catalog/update_book_position.py and bulk_move_books.py.
pub mod BulkMove
use jinbocho_catalog_v.Base.{
  ℕ, String, Bool, true, false, Option, none, some, List, [], ◌∷◌, not, ◌==◌, any, contains, length,
  is_some,
}
use jinbocho_catalog_v.Domain.Book.{OwnedBook, HistoryData, BookEventType}
use jinbocho_catalog_v.Domain.Errors.{lookup_error, permission_error}
use jinbocho_catalog_v.Exec.{Exec, pure, raise, or_raise, raise_if, ◌>>=◌, ◌>>◌}
use jinbocho_catalog_v.Catalog.State.{Catalog}
use jinbocho_catalog_v.Catalog.BookRepo
use jinbocho_catalog_v.Catalog.BookRepo.{book_by_id}
use jinbocho_catalog_v.Catalog.HistoryRepo

pub record UpdateBookPositionInput : Type 0 where
  pub book_id : ℕ
  pub library_id : ℕ
  pub changed_by : ℕ
  pub room_id : Option ℕ
  pub bookcase_id : Option ℕ
  pub section_id : Option ℕ
  pub shelf_id : Option ℕ
  pub shelf_position : Option ℕ
  pub position_description : Option String

-- The values that the history records.
abbrev pub position_of : OwnedBook → HistoryData
position_of b =
    HistoryData.position b.room_id b.bookcase_id b.section_id b.shelf_id b.shelf_position
      b.position_description

unfoldable pub update_book_position : UpdateBookPositionInput → ℕ → Exec Catalog OwnedBook
unfolding BookRepo.find_by_id BookRepo.save HistoryRepo.save
update_book_position inp now = do
  found ← BookRepo.find_by_id inp.book_id
  book ← or_raise found lookup_error
  raise_if (not (book.library_id == inp.library_id)) permission_error
  saved ← BookRepo.save (record book {
    room_id = inp.room_id;
    bookcase_id = inp.bookcase_id;
    section_id = inp.section_id;
    shelf_id = inp.shelf_id;
    shelf_position = inp.shelf_position;
    position_description = inp.position_description;
    updated_at = now;
  })
  HistoryRepo.save (record {
    owned_book_id = saved.id;
    event_type = BookEventType.position_changed;
    changed_by = inp.changed_by;
    old_data = position_of book;
    new_data = position_of saved;
    created_at = now;
  })
  pure saved

pub record BulkMoveBooksInput : Type 0 where
  pub book_ids : List ℕ
  pub library_id : ℕ
  pub changed_by : ℕ
  pub room_id : Option ℕ
  pub bookcase_id : Option ℕ
  pub section_id : Option ℕ
  pub shelf_id : Option ℕ
  pub shelf_position : Option ℕ

abbrev pub without : ℕ → List ℕ → List ℕ
without a [] = []
without a (x ∷ xs) = elim (x == a) [ true ↦ without a xs | false ↦ x ∷ without a xs ]

-- `list(dict.fromkeys(ids))`: the first occurrence of each id, in order.
abbrev pub distinct : List ℕ → List ℕ
distinct [] = []
distinct (x ∷ xs) = x ∷ without x (distinct xs)

-- The copy with its place replaced; a move leaves the description of the place alone.
abbrev pub moved : BulkMoveBooksInput → ℕ → OwnedBook → OwnedBook
moved inp now book = record book {
  room_id = inp.room_id;
  bookcase_id = inp.bookcase_id;
  section_id = inp.section_id;
  shelf_id = inp.shelf_id;
  shelf_position = inp.shelf_position;
  updated_at = now;
}

abbrev pub bulk_position_of : OwnedBook → HistoryData
bulk_position_of b =
    HistoryData.bulk_position b.room_id b.bookcase_id b.section_id b.shelf_id b.shelf_position

-- One round of the loop over the requested ids.
unfoldable pub move_book : BulkMoveBooksInput → ℕ → OwnedBook → Exec Catalog (Unit {0})
unfolding BookRepo.save HistoryRepo.save
move_book inp now book = do
  saved ← BookRepo.save (moved inp now book)
  HistoryRepo.save (record {
    owned_book_id = saved.id;
    event_type = BookEventType.position_changed;
    changed_by = inp.changed_by;
    old_data = bulk_position_of book;
    new_data = bulk_position_of saved;
    created_at = now;
  })

-- The loop, over the copies that were fetched before it; an id that was not fetched would be a
-- KeyError, a kind of LookupError.
unfoldable pub move_books :
    BulkMoveBooksInput → ℕ → List OwnedBook → List ℕ → Exec Catalog (Unit {0})
move_books inp now fetched [] = pure tt
move_books inp now fetched (k ∷ ks) = do
  book ← or_raise (book_by_id k fetched) lookup_error
  move_book inp now book
  move_books inp now fetched ks

-- `missing_ids` and `foreign_ids` are not empty.
abbrev pub any_missing : List OwnedBook → List ℕ → Bool
any_missing books ids = any (λ k. not (is_some (book_by_id k books))) ids

abbrev pub any_foreign : ℕ → List OwnedBook → Bool
any_foreign library_id books = any (λ (b : OwnedBook). not (b.library_id == library_id)) books

unfoldable pub bulk_move_books : BulkMoveBooksInput → ℕ → Exec Catalog ℕ
unfolding BookRepo.find_by_ids
bulk_move_books inp now = do
  let requested = distinct inp.book_ids
  books ← BookRepo.find_by_ids requested
  raise_if (any_missing books requested) lookup_error
  raise_if (any_foreign inp.library_id books) permission_error
  move_books inp now books requested
  pure (length requested)

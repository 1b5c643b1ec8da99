-- ===== src/Backup/Copies.antt =====
-- `_import_books`, `_import_reads`, `_import_loans`, `_import_history` and `_import_wishlist` of
-- import_full_library.py.
pub mod Merge
use jinbocho_catalog_v.Base.{ℕ, suc, String, Bool, true, false, Option, none, some, or_else}
use jinbocho_catalog_v.Domain.Book.{
  OwnedBook, BookCondition, BookSource, ReadingStatus, BookHistory, BookEventType,
}
use jinbocho_catalog_v.Domain.Activity.{BookRead, BookLoan}
use jinbocho_catalog_v.Domain.Errors.{value_error}
use jinbocho_catalog_v.Exec.{Exec, pure, or_raise, ◌>>=◌, ◌>>◌}
use jinbocho_catalog_v.Catalog.State.{Catalog}
use jinbocho_catalog_v.Catalog.BookRepo
use jinbocho_catalog_v.Catalog.ReadRepo
use jinbocho_catalog_v.Catalog.LoanRepo
use jinbocho_catalog_v.Catalog.HistoryRepo
use jinbocho_catalog_v.Backup.Input.{
  IdMap, ImportOwnedBookItem, ImportBookReadItem, ImportBookLoanItem, ImportBookHistoryItem,
  ImportWishlistItem,
}
use jinbocho_catalog_v.Backup.Session.{Session, WishlistItem, on_catalog, on_wishlist}
use jinbocho_catalog_v.Backup.WishlistRepo
use jinbocho_catalog_v.Backup.Names.{
  condition_named, source_named, status_named, event_named, given_named,
}
use jinbocho_catalog_v.Backup.Loop.{get, get_or_raise, get_given, draw}

-- The ids that the first five loops found or drew.
pub record IdMaps : Type 0 where
  pub records : IdMap
  pub rooms : IdMap
  pub bookcases : IdMap
  pub sections : IdMap
  pub shelves : IdMap

module _ (library_id now : ℕ) (users : IdMap) (maps : IdMaps) where
  unfoldable pub find_book : ImportOwnedBookItem → Exec Session (Option ℕ)
  unfolding BookRepo.find_duplicate
  find_book item = do
    record_id ← get_or_raise item.bibliographic_record_id maps.records
    existing ← on_catalog (
        BookRepo.find_duplicate library_id record_id (get_given item.room_id maps.rooms)
          (get_given item.bookcase_id maps.bookcases) (get_given item.section_id maps.sections)
          (get_given item.shelf_id maps.shelves) item.shelf_position)
    pure (elim existing [ none ↦ none | some b ↦ some b.id ])

  abbrev pub restored_book :
      ImportOwnedBookItem
      → (record_id new_id : ℕ) → Option BookCondition
      → Option BookSource
      → ReadingStatus
      → OwnedBook
  restored_book item record_id new_id condition source status = record {
    id = new_id;
    library_id = library_id;
    bibliographic_record_id = record_id;
    room_id = get_given item.room_id maps.rooms;
    bookcase_id = get_given item.bookcase_id maps.bookcases;
    section_id = get_given item.section_id maps.sections;
    shelf_id = get_given item.shelf_id maps.shelves;
    shelf_position = item.shelf_position;
    position_description = item.position_description;
    condition = condition;
    purchase_date = item.purchase_date;
    purchase_price = item.purchase_price;
    source = source;
    reading_status = status;
    current_reader_id = get_given item.current_reader_id users;
    owner_id = get_given item.owner_id users;
    tags = item.tags;
    notes = item.notes;
    is_intentional_duplicate = item.is_intentional_duplicate;
    duplicate_notes = item.duplicate_notes;
    created_at = or_else item.created_at now;
    updated_at = or_else item.updated_at now;
  }

  unfoldable pub add_book : ImportOwnedBookItem → ℕ → Exec Session (Unit {0})
  unfolding BookRepo.save
  add_book item new_id = do
    record_id ← get_or_raise item.bibliographic_record_id maps.records
    condition ← given_named condition_named item.condition
    source ← given_named source_named item.source
    status ← or_raise (status_named item.reading_status) value_error
    on_catalog (BookRepo.save (restored_book item record_id new_id condition source status))
    pure tt

-- `user_id_map.get(k, k)`
abbrev pub user_of : IdMap → ℕ → ℕ
user_of users k = or_else (get k users) k

abbrev pub borrower_of : IdMap → Option ℕ → Option ℕ
borrower_of users none = none
borrower_of users (some k) = some (user_of users k)

-- `if item.owned_book_id not in book_id_map: continue`; else the write, which counts one.
unfoldable pub if_found : Option ℕ → (ℕ → Exec Session (Unit {0})) → Exec Session ℕ
if_found none write = pure 0
if_found (some book) write = do write book; pure 1

module _ (uuid4 : ℕ → ℕ) (library_id now : ℕ) (users books records : IdMap) where
  unfoldable pub import_read : ImportBookReadItem → Exec Session ℕ
  unfolding if_found draw ReadRepo.restore
  import_read item = if_found (get item.owned_book_id books) (λ book. do
    draw uuid4
    on_catalog (
        ReadRepo.restore (record {
          owned_book_id = book;
          user_id = user_of users item.user_id;
          read_at = item.read_at;
        })))

  unfoldable pub import_loan : ImportBookLoanItem → Exec Session ℕ
  unfolding if_found draw LoanRepo.restore
  import_loan item = if_found (get item.owned_book_id books) (λ book. do
    id ← draw uuid4
    on_catalog (
        LoanRepo.restore (record {
          id = id;
          owned_book_id = book;
          borrower_name = item.borrower_name;
          borrower_user_id = borrower_of users item.borrower_user_id;
          loaned_at = item.loaned_at;
          due_date = item.due_date;
          returned_at = item.returned_at;
          reminder_sent_at = none;
        })))

  unfoldable pub import_event : ImportBookHistoryItem → Exec Session ℕ
  unfolding if_found draw HistoryRepo.restore
  import_event item = if_found (get item.owned_book_id books) (λ book. do
    draw uuid4
    event_type ← or_raise (event_named item.event_type) value_error
    on_catalog (
        HistoryRepo.restore (record {
          owned_book_id = book;
          event_type = event_type;
          changed_by = user_of users item.changed_by;
          old_data = item.old_data;
          new_data = item.new_data;
          created_at = or_else item.created_at now;
        })))

  -- A wish that the member has for the record is left out of the count.
  unfoldable pub restore_wish : Bool → (user record_id : ℕ) → ImportWishlistItem → Exec Session ℕ
  unfolding draw WishlistRepo.restore
  restore_wish true user record_id item = pure 0
  restore_wish false user record_id item = do
    id ← draw uuid4
    on_wishlist (
        WishlistRepo.restore (record {
          id = id;
          library_id = library_id;
          user_id = user;
          bibliographic_record_id = record_id;
          added_at = item.added_at;
          notes = item.notes;
          priority = item.priority;
        }))
    pure 1

  unfoldable pub import_wish_for : Option ℕ → ImportWishlistItem → Exec Session ℕ
  unfolding restore_wish WishlistRepo.exists_for_user_and_record
  import_wish_for none item = pure 0
  import_wish_for (some record_id) item = do
    let user = user_of users item.user_id
    already ← on_wishlist (WishlistRepo.exists_for_user_and_record user record_id)
    restore_wish already user record_id item

  unfoldable pub import_wish : ImportWishlistItem → Exec Session ℕ
  unfolding import_wish_for
  import_wish item = import_wish_for (get item.bibliographic_record_id records) item

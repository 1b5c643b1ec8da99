-- ===== src/Backup/Whole.antt =====
-- `ImportFullLibraryUseCase.execute` of import_full_library.py: the check of the whole backup, and then its
-- rows, what they refer to first.
pub mod Steps
pub mod Loops
pub mod Safe
pub mod Rooms
use jinbocho_catalog_v.Base.{ℕ, Option}
use jinbocho_catalog_v.Exec.{Exec, pure, ◌>>=◌, ◌>>◌}
use jinbocho_catalog_v.Backup.Input.{
  IdMap, ImportRoomItem, ImportBookcaseItem, ImportSectionItem, ImportShelfItem, ImportRecordItem,
  ImportOwnedBookItem, ImportFullLibraryInput,
}
use jinbocho_catalog_v.Backup.Session.{Session}
use jinbocho_catalog_v.Backup.Loop.{Imported, nothing_yet, import_all, restore_all}
use jinbocho_catalog_v.Backup.Validate.{validate_referential_integrity}
use jinbocho_catalog_v.Backup.Import.{
  find_record, add_record, find_room, add_room, find_bookcase, add_bookcase, find_section,
  add_section, find_shelf, add_shelf,
}
use jinbocho_catalog_v.Backup.Copies.{
  IdMaps, find_book, add_book, import_read, import_loan, import_event, import_wish,
}

pub record ImportFullLibraryOutput : Type 0 where
  pub rooms_imported : ℕ
  pub rooms_deduped : ℕ
  pub bookcases_imported : ℕ
  pub bookcases_deduped : ℕ
  pub sections_imported : ℕ
  pub sections_deduped : ℕ
  pub shelves_imported : ℕ
  pub shelves_deduped : ℕ
  pub records_imported : ℕ
  pub records_deduped : ℕ
  pub owned_books_imported : ℕ
  pub owned_books_deduped : ℕ
  pub book_reads_imported : ℕ
  pub book_loans_imported : ℕ
  pub book_history_imported : ℕ
  pub wishlist_items_imported : ℕ

module _ (uuid4 : ℕ → ℕ) (inp : ImportFullLibraryInput) (now : ℕ) where
  unfoldable pub import_records : Exec Session Imported
  unfolding import_all find_record add_record
  import_records =
      import_all uuid4 (λ (r : ImportRecordItem). r.id) (find_record inp.library_id now)
        (add_record inp.library_id now) inp.bibliographic_records nothing_yet

  unfoldable pub import_rooms : Exec Session Imported
  unfolding import_all find_room add_room
  import_rooms =
      import_all uuid4 (λ (r : ImportRoomItem). r.id) (find_room inp.library_id now)
        (add_room inp.library_id now) inp.rooms nothing_yet

  unfoldable pub import_bookcases : IdMap → Exec Session Imported
  unfolding import_all find_bookcase add_bookcase
  import_bookcases rooms =
      import_all uuid4 (λ (b : ImportBookcaseItem). b.id) (find_bookcase inp.library_id now rooms)
        (add_bookcase inp.library_id now rooms) inp.bookcases nothing_yet

  unfoldable pub import_sections : IdMap → Exec Session Imported
  unfolding import_all find_section add_section
  import_sections bookcases =
      import_all uuid4 (λ (x : ImportSectionItem). x.id) (find_section inp.library_id now bookcases)
        (add_section inp.library_id now bookcases) inp.sections nothing_yet

  unfoldable pub import_shelves : IdMap → Exec Session Imported
  unfolding import_all find_shelf add_shelf
  import_shelves sections =
      import_all uuid4 (λ (x : ImportShelfItem). x.id) (find_shelf inp.library_id now sections)
        (add_shelf inp.library_id now sections) inp.shelves nothing_yet

  unfoldable pub import_books : IdMaps → Exec Session Imported
  unfolding import_all find_book add_book
  import_books maps =
      import_all uuid4 (λ (b : ImportOwnedBookItem). b.id)
        (find_book inp.library_id now inp.user_id_map maps)
        (add_book inp.library_id now inp.user_id_map maps) inp.owned_books nothing_yet

  -- The rows of the members, and the output.
  unfoldable pub restore_rows :
      (records rooms bookcases sections shelves books : Imported)
      → Exec Session ImportFullLibraryOutput
  unfolding restore_all import_read import_loan import_event import_wish
  restore_rows records rooms bookcases sections shelves books = do
    reads ←
        restore_all (import_read uuid4 inp.library_id now inp.user_id_map books.ids records.ids)
          inp.book_reads
    loans ←
        restore_all (import_loan uuid4 inp.library_id now inp.user_id_map books.ids records.ids)
          inp.book_loans
    events ←
        restore_all (import_event uuid4 inp.library_id now inp.user_id_map books.ids records.ids)
          inp.book_history
    wishes ←
        restore_all (import_wish uuid4 inp.library_id now inp.user_id_map books.ids records.ids)
          inp.wishlist_items
    pure (record {
      rooms_imported = rooms.imported;
      rooms_deduped = rooms.deduped;
      bookcases_imported = bookcases.imported;
      bookcases_deduped = bookcases.deduped;
      sections_imported = sections.imported;
      sections_deduped = sections.deduped;
      shelves_imported = shelves.imported;
      shelves_deduped = shelves.deduped;
      records_imported = records.imported;
      records_deduped = records.deduped;
      owned_books_imported = books.imported;
      owned_books_deduped = books.deduped;
      book_reads_imported = reads;
      book_loans_imported = loans;
      book_history_imported = events;
      wishlist_items_imported = wishes;
    })

  -- From the bookcases on, with the maps of the records and the rooms.
  unfoldable pub import_below : (records rooms : Imported) → Exec Session ImportFullLibraryOutput
  unfolding import_bookcases import_sections import_shelves import_books restore_rows
  import_below records rooms = do
    bookcases ← import_bookcases rooms.ids
    sections ← import_sections bookcases.ids
    shelves ← import_shelves sections.ids
    books ← import_books (record {
      records = records.ids;
      rooms = rooms.ids;
      bookcases = bookcases.ids;
      sections = sections.ids;
      shelves = shelves.ids;
    })
    restore_rows records rooms bookcases sections shelves books

  -- From the records on, which is where the writes start.
  unfoldable pub import_rows : Exec Session ImportFullLibraryOutput
  unfolding import_records import_rooms import_below
  import_rows = do records ← import_records; rooms ← import_rooms; import_below records rooms

  unfoldable pub import_full_library : Exec Session ImportFullLibraryOutput
  unfolding validate_referential_integrity import_rows
  import_full_library = do validate_referential_integrity inp; import_rows

-- ===== src/Examples/Restoring.antt =====
-- A small backup, restored into the sample rows.
use jinbocho_catalog_v.Base.{ℕ, ◌≡◌, ◌≢◌, refl, arith, none, some, [], ◌∷◌, false, ◌+◌}
use jinbocho_catalog_v.Domain.Book.{OwnedBook, reading}
use jinbocho_catalog_v.Domain.Errors.{value_error, key_error}
use jinbocho_catalog_v.Exec.{ok, err}
use jinbocho_catalog_v.Catalog.BookRepo.{book_by_id}
use jinbocho_catalog_v.Catalog.ReadingStatus.{stored_status}
use jinbocho_catalog_v.Backup.Input.{
  ImportRoomItem, ImportBookcaseItem, ImportOwnedBookItem, ImportFullLibraryInput,
}
use jinbocho_catalog_v.Backup.Session.{Session}
use jinbocho_catalog_v.Backup.Loop.{Imported}
use jinbocho_catalog_v.Backup.Copies.{IdMaps, find_book, add_book}
use jinbocho_catalog_v.Backup.Copies.Merge.{add_book-merges, add_book-out_of_step}
use jinbocho_catalog_v.Backup.Whole.{import_rooms, import_full_library}
use jinbocho_catalog_v.Backup.Whole.Safe.{
  import_full_library-unsound, import_full_library-no_key_error,
}
use jinbocho_catalog_v.Backup.Whole.Rooms.{import_rooms-again}
use jinbocho_catalog_v.Examples.{catalog}

abbrev draws : ℕ → ℕ
draws n = 1000 + n

abbrev pub session : Session
session = record {
  catalog = catalog;
  places = record {
    rooms =
        (record {
          id = 1;
          library_id = 1;
          name = "Study";
          description = none;
          created_at = 1;
          updated_at = 1;
        })
        ∷ [];
    bookcases = [];
    sections = [];
    shelves = [];
  };
  wishlist = [];
  drawn = 0;
}

abbrev room_item : ℕ → ImportRoomItem
room_item id = record {
  id = id;
  name = "Study";
  description = none;
  created_at = none;
  updated_at = none;
}

abbrev bookcase_item : (id room : ℕ) → ImportBookcaseItem
bookcase_item id room = record {
  id = id;
  room_id = room;
  name = "Oak";
  description = none;
  type = none;
  notes = none;
  image_url = none;
  created_at = none;
  updated_at = none;
}

-- A copy without a place, that its reader is reading.
abbrev book_item : ℕ → ImportOwnedBookItem
book_item id = record {
  id = id;
  bibliographic_record_id = 60;
  room_id = none;
  bookcase_id = none;
  section_id = none;
  shelf_id = none;
  shelf_position = none;
  position_description = none;
  condition = some "good";
  purchase_date = none;
  purchase_price = none;
  source = none;
  reading_status = "reading";
  current_reader_id = some 70;
  owner_id = none;
  tags = [];
  notes = none;
  is_intentional_duplicate = false;
  duplicate_notes = none;
  created_at = none;
  updated_at = none;
}

-- The bookcase stands in the room that is given.
abbrev backup : ℕ → ImportFullLibraryInput
backup room = record {
  library_id = 1;
  user_id_map = [];
  rooms = room_item 7 ∷ [];
  bookcases = bookcase_item 8 room ∷ [];
  sections = [];
  shelves = [];
  bibliographic_records = [];
  owned_books = [];
  book_reads = [];
  book_loans = [];
  book_history = [];
  wishlist_items = [];
}

-- The record 60 of the backup is the record 110 of the library.
abbrev maps : IdMaps
maps = record { records = (60, 110) ∷ []; rooms = []; bookcases = []; sections = []; shelves = [] }

import_full_library-unsound_example :
    import_full_library draws (backup 9) 99 session ≡ (err value_error, session)
import_full_library-unsound_example =
    import_full_library-unsound draws (backup 9) 99 session (λ h. ground (arith, h.bookcases.0))

import_full_library-no_key_error_example :
    (import_full_library draws (backup 7) 99 session).0 ≢ err key_error
import_full_library-no_key_error_example =
    import_full_library-no_key_error draws (backup 7) 99 session

import_rooms-again_example :
    (first : Imported) × (t : Session) × (import_rooms draws (backup 7) 99 session ≡ (ok first, t))
    × (import_rooms draws (backup 7) 100 t
        ≡ (ok (record { ids = first.ids; imported = 0; deduped = 1 }), t))
import_rooms-again_example =
    import_rooms-again draws (backup 7) 99 100 session (λ m n e. ground (arith, e))
      (λ n later. ground arith)

add_book-merges_example :
    let t = (add_book 1 99 [] maps (book_item 30) 1000 session).1 in
    (x : ℕ) × (find_book 1 99 [] maps (book_item 31) t ≡ (ok (some x), t))
unfolding add_book
add_book-merges_example =
    add_book-merges 1 99 [] maps (book_item 30) (book_item 31) 1000 session
      (record {
        same_record = refl;
        same_room = refl;
        same_bookcase = refl;
        same_section = refl;
        same_shelf = refl;
        same_position = refl;
      })
      refl refl

add_book-out_of_step_example :
    (b : OwnedBook) × (book_by_id 1000
        (add_book 1 99 [] maps (book_item 30) 1000 session).1.catalog.books
      ≡ some b)
    × (b.reading_status ≡ reading)
    × (b.current_reader_id ≡ none)
    × (b.reading_status ≢ stored_status none)
unfolding add_book
add_book-out_of_step_example =
    add_book-out_of_step 1 99 [] maps (book_item 30) 1000 session refl refl refl refl

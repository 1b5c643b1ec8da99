-- ===== src/Catalog/Adding.antt =====
-- app/application/use_cases/catalog/add_book.py, with `normalize_isbn` of isbn_service.py as a
-- parameter. The ids of a new record and of the new copy are arguments.
pub mod Writes
pub mod Effects
pub mod Keeps
use jinbocho_catalog_v.Base.{
  ℕ, String, Bool, true, false, Option, none, some, List, [], not, ◌==◌, ◌&&◌, or_else,
}
use jinbocho_catalog_v.Domain.Book.{
  BookCondition, BookSource, ReadingStatus, to_read, reading, read, OwnedBook, HistoryData,
  BookEventType, reading_status_for,
}
use jinbocho_catalog_v.Domain.Record.{BibliographicRecord}
use jinbocho_catalog_v.Domain.Errors.{
  DuplicateBookConflict, lookup_error, permission_error, value_error, duplicate_book_error,
}
use jinbocho_catalog_v.Exec.{Exec, pure, raise, or_raise, raise_if, ◌>>=◌, ◌>>◌}
use jinbocho_catalog_v.Catalog.State.{Catalog}
use jinbocho_catalog_v.Catalog.BookRepo
use jinbocho_catalog_v.Catalog.ReadRepo
use jinbocho_catalog_v.Catalog.RecordRepo
use jinbocho_catalog_v.Catalog.RecordRepo.{is_given}
use jinbocho_catalog_v.Catalog.HistoryRepo
use jinbocho_catalog_v.Catalog.Duplicates.{Fuzzy, check_for_duplicate}

pub record AddBookInput : Type 0 where
  pub library_id : ℕ
  pub changed_by : ℕ
  pub bibliographic_record_id : Option ℕ
  pub title : Option String
  pub main_author : Option String
  pub other_authors : Option (List String)
  pub isbn : Option String
  pub publisher : Option String
  pub publication_year : Option ℕ
  pub language : Option String
  pub genre : Option String
  pub cover_url : Option String
  pub record_notes : Option String
  pub notes : Option String
  pub room_id : Option ℕ
  pub bookcase_id : Option ℕ
  pub section_id : Option ℕ
  pub shelf_id : Option ℕ
  pub shelf_position : Option ℕ
  pub position_description : Option String
  pub condition : Option BookCondition
  pub purchase_date : Option ℕ
  pub purchase_price : Option ℕ
  pub source : Option BookSource
  pub reading_status : ReadingStatus
  pub owner_id : Option ℕ
  pub tags : Option (List String)
  pub is_intentional_duplicate : Bool
  pub duplicate_notes : Option String

module _ (normalize_isbn : String → String) where
  -- `normalize_isbn(inp.isbn) if inp.isbn else None`
  abbrev pub stored_isbn : Option String → Option String
  stored_isbn none = none
  stored_isbn (some isbn) = elim (is_given (some isbn)) [
    | true ↦ some (normalize_isbn isbn)
    | false ↦ none
  ]

  abbrev pub new_record : AddBookInput → String → (new_id now : ℕ) → BibliographicRecord
  new_record inp title new_id now = record {
    id = new_id;
    library_id = inp.library_id;
    title = title;
    main_author = inp.main_author;
    other_authors = or_else inp.other_authors [];
    isbn = stored_isbn inp.isbn;
    publisher = inp.publisher;
    publication_year = inp.publication_year;
    language = inp.language;
    genre = inp.genre;
    genre_raw = none;
    cover_url = inp.cover_url;
    notes = inp.record_notes;
    incipit = none;
    incipit_source = none;
    incipit_generated_at = none;
    created_at = now;
    updated_at = now;
  }

  -- The record with the ISBN, where one is given.
  unfoldable pub find_isbn : ℕ → Option String → Exec Catalog (Option BibliographicRecord)
  unfolding RecordRepo.find_by_isbn
  find_isbn library_id none = pure none
  find_isbn library_id (some isbn) = RecordRepo.find_by_isbn library_id isbn

  -- `if not title: raise`, else a new record
  unfoldable pub create_record :
      AddBookInput → Option String → (new_id now : ℕ) → Exec Catalog BibliographicRecord
  unfolding RecordRepo.save
  create_record inp none new_id now = raise value_error
  create_record inp (some title) new_id now = do
    raise_if (not (is_given (some title))) value_error
    RecordRepo.save (new_record inp title new_id now)

  abbrev pub or_create :
      Option BibliographicRecord
      → Exec Catalog BibliographicRecord
      → Exec Catalog BibliographicRecord
  or_create none create = create
  or_create (some existing) create = pure existing

  unfoldable pub resolve_from :
      Option ℕ → AddBookInput → (new_id now : ℕ) → Exec Catalog BibliographicRecord
  unfolding RecordRepo.find_by_id find_isbn create_record
  resolve_from (some record_id) inp new_id now = do
    found ← RecordRepo.find_by_id record_id
    rec ← or_raise found lookup_error
    raise_if (not (rec.library_id == inp.library_id)) permission_error
    pure rec
  resolve_from none inp new_id now = do
    existing ← find_isbn inp.library_id (stored_isbn inp.isbn)
    or_create existing (create_record inp inp.title new_id now)

  unfoldable pub resolve_bibliographic_record :
      AddBookInput → (new_id now : ℕ) → Exec Catalog BibliographicRecord
  unfolding resolve_from
  resolve_bibliographic_record inp new_id now =
      resolve_from inp.bibliographic_record_id inp new_id now

-- The stored column never says "read".
abbrev pub initial_status : ReadingStatus → ReadingStatus
initial_status reading = reading
initial_status _ = to_read

abbrev pub initial_reader : ReadingStatus → ℕ → Option ℕ
initial_reader reading user = some user
initial_reader _ user = none

abbrev pub is_read_status : ReadingStatus → Bool
is_read_status read = true
is_read_status _ = false

abbrev pub new_book : AddBookInput → (record_id new_id now : ℕ) → OwnedBook
new_book inp record_id new_id now = record {
  id = new_id;
  library_id = inp.library_id;
  bibliographic_record_id = record_id;
  room_id = inp.room_id;
  bookcase_id = inp.bookcase_id;
  section_id = inp.section_id;
  shelf_id = inp.shelf_id;
  shelf_position = inp.shelf_position;
  position_description = inp.position_description;
  condition = inp.condition;
  purchase_date = inp.purchase_date;
  purchase_price = inp.purchase_price;
  source = inp.source;
  reading_status = initial_status inp.reading_status;
  current_reader_id = initial_reader inp.reading_status inp.changed_by;
  owner_id = inp.owner_id;
  tags = or_else inp.tags [];
  notes = inp.notes;
  is_intentional_duplicate = inp.is_intentional_duplicate;
  duplicate_notes = inp.duplicate_notes;
  created_at = now;
  updated_at = now;
}

unfoldable pub raise_conflict : Option DuplicateBookConflict → Exec Catalog (Unit {0})
raise_conflict none = pure tt
raise_conflict (some conflict) = raise (duplicate_book_error conflict)

unfoldable pub check_new : Bool → Fuzzy → ℕ → BibliographicRecord → Exec Catalog (Unit {0})
unfolding check_for_duplicate raise_conflict
check_new true fz library_id rec = pure tt
check_new false fz library_id rec = do
  conflict ← check_for_duplicate fz library_id rec
  raise_conflict conflict

-- `if inp.reading_status == READ: read_repo.add`
unfoldable pub add_read : Bool → (book user now : ℕ) → Exec Catalog (Unit {0})
unfolding ReadRepo.add
add_read true book user now = ReadRepo.add book user none now
add_read false book user now = pure tt

-- From the record on: the copy, the caller's read, and the event.
unfoldable pub store_book :
    AddBookInput → BibliographicRecord → (new_id now : ℕ) → Exec Catalog OwnedBook
unfolding BookRepo.save add_read HistoryRepo.save
store_book inp rec new_id now = do
  book ← BookRepo.save (new_book inp rec.id new_id now)
  add_read (is_read_status inp.reading_status) book.id inp.changed_by now
  let seen = reading_status_for book (is_read_status inp.reading_status) false
  HistoryRepo.save (record {
    owned_book_id = book.id;
    event_type = BookEventType.created;
    changed_by = inp.changed_by;
    old_data = HistoryData.no_data;
    new_data = HistoryData.created seen book.shelf_id;
    created_at = now;
  })
  pure (record book { reading_status = seen })

unfoldable pub add_book :
    (String → String) → Fuzzy → AddBookInput → (record_id book_id now : ℕ) → Exec Catalog OwnedBook
unfolding resolve_bibliographic_record check_new store_book
add_book normalize_isbn fz inp record_id book_id now = do
  rec ← resolve_bibliographic_record normalize_isbn inp record_id now
  check_new inp.is_intentional_duplicate fz inp.library_id rec
  store_book inp rec book_id now

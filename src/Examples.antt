-- ===== src/Examples.antt =====
-- Sample rows: two libraries with a few copies, readers, loans and ratings, a book club and a
-- family. The modules below run the use cases on them.
pub mod Statuses
pub mod Copies
pub mod Ratings
pub mod BookClub
pub mod Discussions
pub mod Family
pub mod Tools
pub mod Adding
pub mod Shelving
pub mod Restoring
pub mod Leaving
use jinbocho_catalog_v.Base.{ℕ, Option, none, some, List, [], ◌∷◌, ◌+◌}
use jinbocho_catalog_v.Base
use jinbocho_catalog_v.Domain.Book.{ReadingStatus, to_read, reading, OwnedBook}
use jinbocho_catalog_v.Domain.Record.{BibliographicRecord}
use jinbocho_catalog_v.Domain.Activity.{BookRead, BookAbandonment, BookLoan, BookRating}
use jinbocho_catalog_v.Catalog.State.{Catalog}

abbrev pub copy : (id library_id : ℕ) → Option ℕ → ReadingStatus → OwnedBook
copy id library_id reader status = record {
  id = id;
  library_id = library_id;
  bibliographic_record_id = 100 + id;
  room_id = none;
  bookcase_id = none;
  section_id = none;
  shelf_id = none;
  shelf_position = none;
  position_description = none;
  condition = none;
  purchase_date = none;
  purchase_price = none;
  source = none;
  reading_status = status;
  current_reader_id = reader;
  owner_id = none;
  tags = [];
  notes = none;
  is_intentional_duplicate = Base.false;
  duplicate_notes = none;
  created_at = 1;
  updated_at = 2;
}

-- The record of a copy.
abbrev pub bibliographic_record : (id library_id : ℕ) → BibliographicRecord
bibliographic_record id library_id = record {
  id = id;
  library_id = library_id;
  title = "Dune";
  main_author = some "Frank Herbert";
  other_authors = [];
  isbn = none;
  publisher = none;
  publication_year = some 1965;
  language = none;
  genre = none;
  genre_raw = none;
  cover_url = none;
  notes = none;
  incipit = none;
  incipit_source = none;
  incipit_generated_at = none;
  created_at = 1;
  updated_at = 1;
}

abbrev pub loan : (id book : ℕ) → BookLoan
loan id book = record {
  id = id;
  owned_book_id = book;
  borrower_name = "Ada";
  borrower_user_id = none;
  loaned_at = 3;
  due_date = some 30;
  returned_at = none;
  reminder_sent_at = none;
}

abbrev pub rating : (id book user stars : ℕ) → BookRating
rating id book user stars = record {
  id = id;
  owned_book_id = book;
  user_id = user;
  rating = stars;
  review = none;
  created_at = 4;
  updated_at = 4;
}

-- Library 1 has the copies 10 and 11, library 2 has the copy 20. Copy 11 is being read by the user 5
-- and is lent; user 6 has read copy 10, and user 7 has given it up.
abbrev pub catalog : Catalog
catalog = record {
  books = copy 10 1 none to_read ∷ copy 11 1 (some 5) reading ∷ copy 20 2 none to_read ∷ [];
  records = bibliographic_record 110 1 ∷ [];
  reads = (record { owned_book_id = 10; user_id = 6; read_at = 3 }) ∷ [];
  abandonments = (record { owned_book_id = 10; user_id = 7; abandoned_at = 3 }) ∷ [];
  history = [];
  loans = loan 1 11 ∷ [];
  ratings = rating 1 10 6 4 ∷ rating 2 20 6 2 ∷ [];
}

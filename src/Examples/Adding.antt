-- ===== src/Examples/Adding.antt =====
-- New copies, their duplicates and their metadata, on the sample rows.
use jinbocho_catalog_v.Base.{
  String, ◌≡◌, refl, ◌⊎◌, ◌≤◌, none, some, Option, false, ◌&&◌, ◌||◌, if◌then◌else◌, str_eq, All,
}
use jinbocho_catalog_v.Base.Table.{find, insert}
use jinbocho_catalog_v.Base.Member.{same_pair}
use jinbocho_catalog_v.Domain.Book.{read}
use jinbocho_catalog_v.Domain.Record.{BibliographicRecord}
use jinbocho_catalog_v.Exec.{ok}
use jinbocho_catalog_v.Catalog.ReadRepo.{has_read}
use jinbocho_catalog_v.Catalog.Invariant.{IsConsistent}
use jinbocho_catalog_v.Catalog.ReadingStatus.{update_reading_status, mark}
use jinbocho_catalog_v.Catalog.ReadingStatus.Effects.{status_in}
use jinbocho_catalog_v.Catalog.RecordRepo.{has_title_author}
use jinbocho_catalog_v.Catalog.Duplicates.{Fuzzy, loose_score, no_best, scan, scored}
use jinbocho_catalog_v.Catalog.Duplicates.Reads.{copy_of}
use jinbocho_catalog_v.Catalog.Duplicates.Scan.{IsOneOf, scan-best}
use jinbocho_catalog_v.Catalog.Adding.{
  AddBookInput, new_record, find_isbn, resolve_bibliographic_record, add_book, is_read_status,
}
use jinbocho_catalog_v.Catalog.Adding.Effects.{add_book-adds, add_book_unique}
use jinbocho_catalog_v.Catalog.Adding.Keeps.{add_book-IsConsistent, add_book-orphan}
use jinbocho_catalog_v.Catalog.Metadata.{UpdateBookMetadataInput, update_book_metadata, mark_given}
use jinbocho_catalog_v.Catalog.Metadata.Effects.{status_input, update_book_metadata-as_status}
use jinbocho_catalog_v.Examples.{catalog, bibliographic_record}
use jinbocho_catalog_v.Examples.Statuses.{catalog-IsConsistent}

abbrev unchanged : String → String
unchanged t = t

-- Texts are alike only when they are equal, and nobody judges.
abbrev equal_texts : Fuzzy
equal_texts = record {
  normalize = unchanged;
  token_set_ratio = λ a b. if str_eq a b then 100 else 0;
  token_sort_ratio = λ a b. if str_eq a b then 100 else 0;
  judge = none;
  newest_first = λ rows. rows;
  config = record { high_threshold = 90; low_threshold = 70 };
}

-- User 5 adds a copy of a title that library 1 may have, and has read it.
abbrev adding : String → Option String → AddBookInput
adding title author = record {
  library_id = 1;
  changed_by = 5;
  bibliographic_record_id = none;
  title = some title;
  main_author = author;
  other_authors = none;
  isbn = none;
  publisher = none;
  publication_year = none;
  language = none;
  genre = none;
  cover_url = none;
  record_notes = none;
  notes = none;
  room_id = none;
  bookcase_id = none;
  section_id = none;
  shelf_id = none;
  shelf_position = none;
  position_description = none;
  condition = none;
  purchase_date = none;
  purchase_price = none;
  source = none;
  reading_status = read;
  owner_id = none;
  tags = none;
  is_intentional_duplicate = false;
  duplicate_notes = none;
}

abbrev emma : AddBookInput
emma = adding "Emma" none

-- The title and the author of the record of copy 10.
abbrev dune : AddBookInput
dune = adding "Dune" (some "Frank Herbert")

add_book-adds_example :
    has_read 30 5 (add_book unchanged equal_texts emma 300 30 99 catalog).1.reads
    ≡ ((is_read_status emma.reading_status && same_pair 30 5 30 5) || has_read 30 5 catalog.reads)
unfolding add_book
add_book-adds_example =
    (add_book-adds unchanged equal_texts emma 300 30 99 catalog 30 30 5 refl refl).4

add_book_unique_example :
    (r : BibliographicRecord) × ((resolve_bibliographic_record unchanged emma 300 99 catalog).0
      ≡ ok r)
    × (copy_of r.id catalog ≡ none)
    × ((other : BibliographicRecord)
        → find
            (has_title_author 1 r.title r.main_author)
            (resolve_bibliographic_record unchanged emma 300 99 catalog).1.records
          ≡ some other
        → copy_of other.id catalog ≡ none)
unfolding add_book
add_book_unique_example = add_book_unique unchanged equal_texts emma 300 30 99 catalog refl refl

add_book-IsConsistent_example :
    IsConsistent (add_book unchanged equal_texts emma 300 30 99 catalog).1
add_book-IsConsistent_example =
    add_book-IsConsistent unchanged equal_texts emma 300 30 99 catalog refl (λ user. refl)
      catalog-IsConsistent

add_book-orphan_example :
    (add_book unchanged equal_texts dune 300 30 99 catalog).1
    ≡ record catalog { records = insert (new_record unchanged dune "Dune" 300 99) catalog.records }
unfolding add_book find_isbn
add_book-orphan_example =
    add_book-orphan unchanged equal_texts dune 300 30 99 catalog refl refl refl refl refl refl refl

scan-best_example :
    let out = scan equal_texts (bibliographic_record 300 1) no_best catalog.records in
    All
      (λ r. loose_score equal_texts (bibliographic_record 300 1) r ≤ out.best_loose_score)
      catalog.records
    × (((out.best_record ≡ none) × (out.best_loose_score ≡ 0))
        ⊎ ((r : BibliographicRecord) × IsOneOf r catalog.records
            × (out ≡ scored equal_texts (bibliographic_record 300 1) r)))
scan-best_example = scan-best equal_texts (bibliographic_record 300 1) catalog.records

-- User 7, who gave copy 10 up, notes that it is worn and that it is read.
abbrev worn : UpdateBookMetadataInput
worn = record {
  book_id = 10;
  library_id = 1;
  changed_by = 7;
  condition = none;
  purchase_date = none;
  purchase_price = none;
  source = none;
  reading_status = some read;
  owner_id = none;
  tags = none;
  notes = some "worn";
}

update_book_metadata-as_status_example :
    let s' = (update_book_metadata worn 99 catalog).1 in
    status_in s' 10 6 ≡ status_in (update_reading_status (status_input worn read) 99 catalog).1 10 6
unfolding update_book_metadata mark_given mark
update_book_metadata-as_status_example =
    (update_book_metadata-as_status worn 99 catalog read 10 6 refl refl).3

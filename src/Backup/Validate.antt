-- ===== src/Backup/Validate.antt =====
-- `_validate_referential_integrity` of import_full_library.py: every reference inside the backup is to a
-- row of the backup.
pub mod Sound
use jinbocho_catalog_v.Base.{ℕ, Bool, true, Option, none, some, List, [], ◌∷◌, not, ◌&&◌, contains}
use jinbocho_catalog_v.Domain.Errors.{value_error}
use jinbocho_catalog_v.Exec.{Exec, pure, raise_if, ◌>>=◌, ◌>>◌}
use jinbocho_catalog_v.Backup.Input.{
  ImportRoomItem, ImportBookcaseItem, ImportSectionItem, ImportShelfItem, ImportRecordItem,
  ImportOwnedBookItem, ImportBookReadItem, ImportBookLoanItem, ImportBookHistoryItem,
  ImportFullLibraryInput,
}

-- The ids of the rows of one list.
abbrev pub ids_of : {Item : Type 0} → (Item → ℕ) → List Item → List ℕ
ids_of id [] = []
ids_of id (x ∷ xs) = id x ∷ ids_of id xs

-- `value is None or value in valid_ids`
abbrev pub is_valid : List ℕ → Option ℕ → Bool
is_valid valid_ids none = true
is_valid valid_ids (some k) = contains k valid_ids

module _ (inp : ImportFullLibraryInput) where
  abbrev pub room_ids : List ℕ
  room_ids = ids_of (λ (x : ImportRoomItem). x.id) inp.rooms

  abbrev pub bookcase_ids : List ℕ
  bookcase_ids = ids_of (λ (x : ImportBookcaseItem). x.id) inp.bookcases

  abbrev pub section_ids : List ℕ
  section_ids = ids_of (λ (x : ImportSectionItem). x.id) inp.sections

  abbrev pub shelf_ids : List ℕ
  shelf_ids = ids_of (λ (x : ImportShelfItem). x.id) inp.shelves

  abbrev pub record_ids : List ℕ
  record_ids = ids_of (λ (x : ImportRecordItem). x.id) inp.bibliographic_records

  abbrev pub book_ids : List ℕ
  book_ids = ids_of (λ (x : ImportOwnedBookItem). x.id) inp.owned_books

  abbrev pub is_sound_bookcase : ImportBookcaseItem → Bool
  is_sound_bookcase b = contains b.room_id room_ids

  abbrev pub is_sound_section : ImportSectionItem → Bool
  is_sound_section x = contains x.bookcase_id bookcase_ids

  abbrev pub is_sound_shelf : ImportShelfItem → Bool
  is_sound_shelf x = contains x.section_id section_ids

  abbrev pub is_sound_book : ImportOwnedBookItem → Bool
  is_sound_book b =
      contains b.bibliographic_record_id record_ids
      && (is_valid room_ids b.room_id
          && (is_valid bookcase_ids b.bookcase_id
              && (is_valid section_ids b.section_id && is_valid shelf_ids b.shelf_id)))

  abbrev pub is_sound_read : ImportBookReadItem → Bool
  is_sound_read r = contains r.owned_book_id book_ids

  abbrev pub is_sound_loan : ImportBookLoanItem → Bool
  is_sound_loan l = contains l.owned_book_id book_ids

  abbrev pub is_sound_event : ImportBookHistoryItem → Bool
  is_sound_event h = contains h.owned_book_id book_ids

module _ {S : Type 0} where
  -- `for x in items: if x.key not in ids: raise ValueError`
  abbrev pub check_each : {Item : Type 0} → (Item → Bool) → List Item → Exec S (Unit {0})
  check_each is_sound [] = pure tt
  check_each is_sound (x ∷ xs) = do raise_if (not (is_sound x)) value_error; check_each is_sound xs

  unfoldable pub validate_referential_integrity : ImportFullLibraryInput → Exec S (Unit {0})
  validate_referential_integrity inp = do
    check_each (is_sound_bookcase inp) inp.bookcases
    check_each (is_sound_section inp) inp.sections
    check_each (is_sound_shelf inp) inp.shelves
    check_each (is_sound_book inp) inp.owned_books
    check_each (is_sound_read inp) inp.book_reads
    check_each (is_sound_loan inp) inp.book_loans
    check_each (is_sound_event inp) inp.book_history

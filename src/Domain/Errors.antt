-- ===== src/Domain/Errors.antt =====
-- app/domain/errors.py, and the exceptions that the use cases raise, by their class: the texts of
-- the messages are left out. An integrity error is the database's, where a row would break a
-- constraint, and the finding of several results is SQLAlchemy's, where a query for one row has more.
use jinbocho_catalog_v.Base.{ℕ, String, Option}

pub data ConflictType : Type 0 where
  isbn_match title_author_match fuzzy_match : ConflictType

pub record DuplicateBookConflict : Type 0 where
  pub conflict_type : ConflictType
  pub existing_book_id : ℕ
  pub existing_record_id : ℕ
  pub title : String
  pub main_author : Option String
  pub isbn : Option String
  pub existing_owner_id : Option ℕ
  pub existing_room_id : Option ℕ
  pub existing_bookcase_id : Option ℕ
  pub existing_section_id : Option ℕ
  pub existing_shelf_id : Option ℕ
  pub match_reason : Option String

pub data Error : Type 0 where
  lookup_error permission_error value_error key_error integrity_error multiple_results_found : Error
  duplicate_book_error : DuplicateBookConflict → Error

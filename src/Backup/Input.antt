-- ===== src/Backup/Input.antt =====
-- The items of a backup, and the whole of it, as import_full_library.py is given them. Texts stand where
-- the payload has the name of a condition, a source, a status or a kind of event.
use jinbocho_catalog_v.Base.{ℕ, String, Bool, Option, List}
use jinbocho_catalog_v.Domain.Book.{HistoryData}

-- A dictionary of ids: the last entry that was set for a key comes first.
abbrev pub IdMap : Type 0
IdMap = List (ℕ × ℕ)

pub record ImportRoomItem : Type 0 where
  pub id : ℕ
  pub name : String
  pub description : Option String
  pub created_at : Option ℕ
  pub updated_at : Option ℕ

pub record ImportBookcaseItem : Type 0 where
  pub id : ℕ
  pub room_id : ℕ
  pub name : String
  pub description : Option String
  pub type : Option String
  pub notes : Option String
  pub image_url : Option String
  pub created_at : Option ℕ
  pub updated_at : Option ℕ

pub record ImportSectionItem : Type 0 where
  pub id : ℕ
  pub bookcase_id : ℕ
  pub section_index : ℕ
  pub label : Option String
  pub created_at : Option ℕ
  pub updated_at : Option ℕ

pub record ImportShelfItem : Type 0 where
  pub id : ℕ
  pub section_id : ℕ
  pub shelf_index : ℕ
  pub notes : Option String
  pub created_at : Option ℕ
  pub updated_at : Option ℕ

pub record ImportRecordItem : Type 0 where
  pub id : ℕ
  pub title : String
  pub main_author : Option String
  pub other_authors : List String
  pub isbn : Option String
  pub publisher : Option String
  pub publication_year : Option ℕ
  pub language : Option String
  pub genre : Option String
  pub genre_raw : Option String
  pub cover_url : Option String
  pub notes : Option String
  pub incipit : Option String
  pub incipit_source : Option String
  pub incipit_generated_at : Option ℕ
  pub created_at : Option ℕ
  pub updated_at : Option ℕ

pub record ImportOwnedBookItem : Type 0 where
  pub id : ℕ
  pub bibliographic_record_id : ℕ
  pub room_id : Option ℕ
  pub bookcase_id : Option ℕ
  pub section_id : Option ℕ
  pub shelf_id : Option ℕ
  pub shelf_position : Option ℕ
  pub position_description : Option String
  pub condition : Option String
  pub purchase_date : Option ℕ
  pub purchase_price : Option ℕ
  pub source : Option String
  pub reading_status : String
  pub current_reader_id : Option ℕ
  pub owner_id : Option ℕ
  pub tags : List String
  pub notes : Option String
  pub is_intentional_duplicate : Bool
  pub duplicate_notes : Option String
  pub created_at : Option ℕ
  pub updated_at : Option ℕ

pub record ImportBookReadItem : Type 0 where
  pub id : ℕ
  pub owned_book_id : ℕ
  pub user_id : ℕ
  pub read_at : ℕ

pub record ImportBookLoanItem : Type 0 where
  pub id : ℕ
  pub owned_book_id : ℕ
  pub borrower_name : String
  pub loaned_at : ℕ
  pub borrower_user_id : Option ℕ
  pub due_date : Option ℕ
  pub returned_at : Option ℕ

pub record ImportBookHistoryItem : Type 0 where
  pub id : ℕ
  pub owned_book_id : ℕ
  pub event_type : String
  pub changed_by : ℕ
  pub old_data : HistoryData
  pub new_data : HistoryData
  pub created_at : Option ℕ

pub record ImportWishlistItem : Type 0 where
  pub id : ℕ
  pub user_id : ℕ
  pub bibliographic_record_id : ℕ
  pub added_at : ℕ
  pub notes : Option String
  pub priority : Option ℕ

pub record ImportFullLibraryInput : Type 0 where
  pub library_id : ℕ
  pub user_id_map : IdMap
  pub rooms : List ImportRoomItem
  pub bookcases : List ImportBookcaseItem
  pub sections : List ImportSectionItem
  pub shelves : List ImportShelfItem
  pub bibliographic_records : List ImportRecordItem
  pub owned_books : List ImportOwnedBookItem
  pub book_reads : List ImportBookReadItem
  pub book_loans : List ImportBookLoanItem
  pub book_history : List ImportBookHistoryItem
  pub wishlist_items : List ImportWishlistItem

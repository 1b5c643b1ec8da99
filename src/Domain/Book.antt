-- ===== src/Domain/Book.antt =====
-- app/domain/entities/owned_book.py and book_history.py.
use jinbocho_catalog_v.Base.{ℕ, String, Bool, Option, none, some, List, if◌then◌else◌}

pub data ReadingStatus : Type 0 where
  to_read reading read abandoned : ReadingStatus

pub data BookCondition : Type 0 where
  new good fair poor : BookCondition

pub data BookSource : Type 0 where
  purchased gift borrowed other : BookSource

pub record OwnedBook : Type 0 where
  pub id : ℕ
  pub library_id : ℕ
  pub bibliographic_record_id : ℕ
  pub room_id : Option ℕ
  pub bookcase_id : Option ℕ
  pub section_id : Option ℕ
  pub shelf_id : Option ℕ
  pub shelf_position : Option ℕ
  pub position_description : Option String
  pub condition : Option BookCondition
  pub purchase_date : Option ℕ
  pub purchase_price : Option ℕ
  pub source : Option BookSource
  pub reading_status : ReadingStatus
  pub current_reader_id : Option ℕ
  pub owner_id : Option ℕ
  pub tags : List String
  pub notes : Option String
  pub is_intentional_duplicate : Bool
  pub duplicate_notes : Option String
  pub created_at : ℕ
  pub updated_at : ℕ

-- The status of a copy as one member sees it, from who holds the copy and from the member's rows.
abbrev pub member_status : Option ℕ → Bool → Bool → ReadingStatus
member_status (some reader) has_read has_abandoned = ReadingStatus.reading
member_status none has_read has_abandoned =
    if has_read
    then ReadingStatus.read
    else if has_abandoned
    then ReadingStatus.abandoned
    else ReadingStatus.to_read

abbrev pub reading_status_for : OwnedBook → Bool → Bool → ReadingStatus
reading_status_for book has_read has_abandoned =
    member_status book.current_reader_id has_read has_abandoned

-- The values that the use cases put into `old_data` and `new_data`.
pub data HistoryData : Type 0 where
  no_data : HistoryData
  created : ReadingStatus → Option ℕ → HistoryData
  status : ReadingStatus → HistoryData
  position : Option ℕ → Option ℕ → Option ℕ → Option ℕ → Option ℕ → Option String → HistoryData
  bulk_position : Option ℕ → Option ℕ → Option ℕ → Option ℕ → Option ℕ → HistoryData
  record_id : ℕ → HistoryData

pub data BookEventType : Type 0 where
  created metadata_updated position_changed reading_status_changed deleted : BookEventType

pub record BookHistory : Type 0 where
  pub owned_book_id : ℕ
  pub event_type : BookEventType
  pub changed_by : ℕ
  pub old_data : HistoryData
  pub new_data : HistoryData
  pub created_at : ℕ

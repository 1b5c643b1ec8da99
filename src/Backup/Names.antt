-- ===== src/Backup/Names.antt =====
-- `BookCondition(...)`, `BookSource(...)`, `ReadingStatus(...)` and `BookEventType(...)` of
-- app/domain/entities/owned_book.py and book_history.py: an enumeration from the text of its value, with a
-- ValueError for any other text.
use jinbocho_catalog_v.Base.{String, true, false, Option, none, some, str_eq, if◌then◌else◌}
use jinbocho_catalog_v.Domain.Book.{BookCondition, BookSource, ReadingStatus, BookEventType}
use jinbocho_catalog_v.Domain.Errors.{value_error}
use jinbocho_catalog_v.Exec.{Exec, pure, or_raise, ◌>>=◌}
use jinbocho_catalog_v.Catalog.RecordRepo.{is_given}

abbrev pub condition_named : String → Option BookCondition
condition_named t =
    if str_eq t "new"
    then some BookCondition.new
    else if str_eq t "good"
    then some BookCondition.good
    else if str_eq t "fair"
    then some BookCondition.fair
    else if str_eq t "poor"
    then some BookCondition.poor
    else none

abbrev pub source_named : String → Option BookSource
source_named t =
    if str_eq t "purchased"
    then some BookSource.purchased
    else if str_eq t "gift"
    then some BookSource.gift
    else if str_eq t "borrowed"
    then some BookSource.borrowed
    else if str_eq t "other"
    then some BookSource.other
    else none

abbrev pub status_named : String → Option ReadingStatus
status_named t =
    if str_eq t "to_read"
    then some ReadingStatus.to_read
    else if str_eq t "reading"
    then some ReadingStatus.reading
    else if str_eq t "read"
    then some ReadingStatus.read
    else if str_eq t "abandoned"
    then some ReadingStatus.abandoned
    else none

abbrev pub event_named : String → Option BookEventType
event_named t =
    if str_eq t "created"
    then some BookEventType.created
    else if str_eq t "metadata_updated"
    then some BookEventType.metadata_updated
    else if str_eq t "position_changed"
    then some BookEventType.position_changed
    else if str_eq t "reading_status_changed"
    then some BookEventType.reading_status_changed
    else if str_eq t "deleted"
    then some BookEventType.deleted
    else none

module _ {S : Type 0} where
  -- `Enum(text) if text else None`
  abbrev pub given_named : {A : Type 0} → (String → Option A) → Option String → Exec S (Option A)
  given_named named none = pure none
  given_named named (some t) = elim (is_given (some t)) [
    | false ↦ pure none
    | true ↦ or_raise (named t) value_error >>= λ a. pure (some a)
  ]

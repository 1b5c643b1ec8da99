-- ===== src/Catalog.antt =====
-- The catalog: the copies of books that a library owns, with their records, readers, loans,
-- ratings and history.
pub mod State
pub mod BookRepo
pub mod ReadRepo
pub mod RecordRepo
pub mod AbandonmentRepo
pub mod HistoryRepo
pub mod Rows
pub mod Access
pub mod ReadingStatus
pub mod Invariant
pub mod LoanRepo
pub mod Loans
pub mod Position
pub mod Removal
pub mod Reads
pub mod Duplicates
pub mod Adding
pub mod Metadata
pub mod Reminders
pub mod Ratings

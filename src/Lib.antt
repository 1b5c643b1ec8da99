-- ===== src/Lib.antt =====
-- The catalog service of jinbocho: the books of shared libraries, who reads and borrows them, a book
-- club, and a kids mode. Its core are use cases (app/application/use_cases), each a class with one
-- method `execute`, over repositories (app/infrastructure/repositories) on a database session; the HTTP
-- endpoints call one use case each.
--
-- Parts, and where they are modelled:
-- - Base: tests, lists, and tables as lists of rows, with the operations that SQLAlchemy offers the
--   repositories (select, get, add, delete, assignment to a row).
-- - Exec: a use case is a function of the state that returns a result or an error, with the state.
--   PermissionError, LookupError, ValueError, KeyError, DuplicateBookError, the IntegrityError of the
--   database and SQLAlchemy's MultipleResultsFound are the errors; texts are left out.
-- - Domain: the entities (app/domain/entities) as records and data types, and app/domain/errors.py.
-- - Catalog: the repositories of copies, records, reads, abandonments, loans, history (BookRepo,
--   RecordRepo, ReadRepo, AbandonmentRepo, LoanRepo, HistoryRepo), and the use cases of
--   use_cases/catalog: Duplicates and Adding are add_book.py, Metadata is update_book_metadata.py,
--   Reminders is loan_reminders.py, ReadingStatus is update_reading_status.py, Loans is book_loans.py,
--   Position is update_book_position.py and bulk_move_books.py, Removal is delete_book.py and
--   bulk_delete_books.py, Reads is book_reads.py, Ratings is book_ratings.py. A class XyzUseCase is the
--   function xyz, and a dataclass XyzInput the record XyzInput. Invariant states what
--   update_reading_status.py keeps.
-- - Club: use_cases/bookclub/cycles.py (Cycles), proposals.py (Proposals) and posts.py (Posts). Life
--   puts the calls on cycles, proposals and votes in sequences, in any order and with any arguments.
-- - Services: app/application/services: age_band.py, pagination.py, quiz_scoring_service.py.
-- - Kids: use_cases/kids: quiz.py, reading_sessions.py, family_challenges.py, mystery_picks.py. A kids
--   use case that writes a copy calls the catalog's repositories or its reading status.
-- - Places: use_cases/location and app/application/services/position_service.py, with the repositories
--   of rooms, bookcases, sections and shelves. Life puts the calls in sequences.
-- - Backup: use_cases/backup/import_full_library.py. Its session holds the catalog, the places and the
--   wishlist; it calls the repositories of the first two. Loop is the loop that six of its steps share.
--   Deletion is use_cases/backup/delete_library_data.py, over the same tables and those of the book
--   club.
-- - Examples: sample rows and runs on them.
--
-- How the code is read: an id (UUID) is a natural number, as are a time in seconds and a day; a price
-- is in hundredths. The index of a section or a shelf is only compared, and is a natural number too.
-- `uuid4()` is an argument `new_id`, and in an import a sequence of ids that are drawn one after
-- another; and the clock an argument `now`, read once for a call, so two readings in one call are
-- equal. A flush and a refresh change nothing but the session's rows. A raise leaves in the state what
-- was written before it. Foreign keys that cascade are written out where a copy or a proposal is
-- deleted, for the tables of the same state: the rows of the kids mode on a copy and the cycles that
-- name it are not followed when the catalog deletes the copy. The unique constraints of records,
-- sections, shelves and active loans are checked where a row is added, as they are by the database;
-- other ones are not assumed by the definitions: a theorem that needs one has it as a hypothesis or an
-- invariant. Numbers that the API validates to be non-negative are natural numbers, and years too. The
-- pass mark 0.7 is compared as a fraction.
--
-- Parameters: `strip` (str.strip), the order of a listing, the query of a page, the normalisation of
-- ISBNs and of texts, the two ratios of rapidfuzz, the judgement of a language model on a doubtful
-- pair, and the notifier of reminders, whose answer may depend on the turn of the loop and differ from
-- run to run. The loop of fetch_all_pages takes fuel, one unit for each page; more fuel than rows is
-- enough, since each page but the last has a row at least. The cascade from a deleted post goes round
-- by round, with as many rounds as posts, since each round but the last drops one. All other loops are
-- recursion on a list.
--
-- Not modelled: the HTTP layer, the database models and migrations, the external services (metadata of
-- books, a language model), the deletion of a single place (what becomes of the rows below is up to
-- SQLAlchemy), and, so far, the ingestion, the export, the map, the wishlist, the genres, and the rest
-- of the book club and of the kids mode.
pub mod Base
pub mod Domain
pub mod Exec
pub mod Catalog
pub mod Club
pub mod Services
pub mod Kids
pub mod Places
pub mod Backup
pub mod Examples

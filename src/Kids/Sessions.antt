-- ===== src/Kids/Sessions.antt =====
-- app/application/use_cases/kids/reading_sessions.py.
pub mod Logging
use jinbocho_catalog_v.Base.{
  ℕ, String, Bool, Option, none, some, not, ◌==◌, ◌&&◌, ◌||◌, is_some, or_else, if◌then◌else◌,
}
use jinbocho_catalog_v.Base.Table
use jinbocho_catalog_v.Domain.Book.{OwnedBook, reading, read}
use jinbocho_catalog_v.Domain.Errors.{permission_error}
use jinbocho_catalog_v.Exec.{Exec, pure, modify, raise, raise_if, ◌>>=◌, ◌>>◌}
use jinbocho_catalog_v.Catalog.BookRepo
use jinbocho_catalog_v.Catalog.ReadingStatus.{UpdateReadingStatusInput, update_reading_status}
use jinbocho_catalog_v.Kids.State.{
  ReadingSessionMode, independent, together, ReadingSession, Kids, on_catalog, is_parent,
  get_library_book,
}

pub record LogReadingSessionInput : Type 0 where
  pub owned_book_id : ℕ
  pub library_id : ℕ
  pub target_user_id : ℕ
  pub requester_user_id : ℕ
  pub requester_role : String
  pub kids_mode_enabled : Bool
  pub minutes : Option ℕ
  pub pages : Option ℕ
  pub session_date : Option ℕ
  pub mode : ReadingSessionMode

-- Who logs the session: the parent, or nobody but the reader.
unfoldable pub logged_by : ReadingSessionMode → LogReadingSessionInput → Exec Kids (Option ℕ)
logged_by together inp = do
  raise_if (not (is_parent inp.requester_role)) permission_error
  pure (some inp.requester_user_id)
logged_by independent inp = do
  raise_if (not (inp.target_user_id == inp.requester_user_id)) permission_error
  pure none

-- A shared session claims the copy for the child, if nobody holds it.
unfoldable pub claim : ReadingSessionMode → ℕ → (now : ℕ) → OwnedBook → Exec Kids (Unit {0})
unfolding BookRepo.save
claim independent child now book = pure tt
claim together child now book =
    if is_some book.current_reader_id
    then pure tt
    else on_catalog (
        BookRepo.save (record book {
          current_reader_id = some child;
          reading_status = reading;
          updated_at = now;
        }))
      >> pure tt

unfoldable pub log_reading_session :
    LogReadingSessionInput → (new_id now today : ℕ) → Exec Kids ReadingSession
unfolding get_library_book logged_by claim
log_reading_session inp new_id now today = do
  raise_if (not inp.kids_mode_enabled) permission_error
  book ← get_library_book inp.owned_book_id inp.library_id
  logger ← logged_by inp.mode inp
  let session : ReadingSession = record {
    id = new_id;
    owned_book_id = inp.owned_book_id;
    user_id = inp.target_user_id;
    minutes = inp.minutes;
    pages = inp.pages;
    session_date = or_else inp.session_date today;
    mode = inp.mode;
    logged_by_user_id = logger;
    created_at = now;
  }
  modify (λ s. record s { sessions = Table.insert session s.sessions })
  claim inp.mode inp.target_user_id now book
  pure session

-- The input that a parent's call hands to the use case of the reading status.
abbrev pub finish_input : (book_id library_id child : ℕ) → UpdateReadingStatusInput
finish_input book_id library_id child = record {
  book_id = book_id;
  library_id = library_id;
  changed_by = child;
  reading_status = read;
}

unfoldable pub finish_shared_reading :
    (book_id library_id child : ℕ) → String → Bool → (now : ℕ) → Exec Kids OwnedBook
finish_shared_reading book_id library_id child role kids_mode now = do
  raise_if (not kids_mode) permission_error
  raise_if (not (is_parent role)) permission_error
  on_catalog (update_reading_status (finish_input book_id library_id child) now)

-- ===== src/Kids/State.antt =====
-- The entities of the kids mode (app/domain/entities: reading_session.py, family_challenge.py,
-- mystery_pick.py), the tables that its use cases read and write, and the guards that they share.
use jinbocho_catalog_v.Base.{ℕ, String, Bool, Option, List, not, ◌==◌, ◌||◌, str_eq}
use jinbocho_catalog_v.Domain.Book.{OwnedBook}
use jinbocho_catalog_v.Domain.Quiz.{QuizQuestion, QuizAttempt}
use jinbocho_catalog_v.Domain.Errors.{lookup_error, permission_error}
use jinbocho_catalog_v.Exec.{Exec, pure, or_raise, raise_if, ◌>>=◌, ◌>>◌}
use jinbocho_catalog_v.Catalog.State.{Catalog}
use jinbocho_catalog_v.Catalog.BookRepo

pub data ReadingSessionMode : Type 0 where
  independent together : ReadingSessionMode

pub record ReadingSession : Type 0 where
  pub id : ℕ
  pub owned_book_id : ℕ
  pub user_id : ℕ
  pub minutes : Option ℕ
  pub pages : Option ℕ
  pub session_date : ℕ
  pub mode : ReadingSessionMode
  pub logged_by_user_id : Option ℕ
  pub created_at : ℕ

pub data ChallengeMetric : Type 0 where
  minutes sessions books : ChallengeMetric

pub record FamilyChallenge : Type 0 where
  pub id : ℕ
  pub library_id : ℕ
  pub title : String
  pub metric : ChallengeMetric
  pub target : ℕ
  pub starts_on : ℕ
  pub ends_on : ℕ
  pub created_by : Option ℕ
  pub created_at : ℕ

pub data MysteryPickStatus : Type 0 where
  proposed accepted : MysteryPickStatus

pub record MysteryPick : Type 0 where
  pub id : ℕ
  pub library_id : ℕ
  pub owned_book_id : ℕ
  pub child_user_id : ℕ
  pub hint_text : String
  pub status : MysteryPickStatus
  pub created_by : Option ℕ
  pub created_at : ℕ

pub record Kids : Type 0 where
  pub catalog : Catalog
  pub questions : List QuizQuestion
  pub attempts : List QuizAttempt
  pub sessions : List ReadingSession
  pub challenges : List FamilyChallenge
  pub picks : List MysteryPick

-- A call of the catalog's repositories.
abbrev pub on_catalog : {A : Type 0} → Exec Catalog A → Exec Kids A
on_catalog m s = let (r, c) = m s.catalog in (r, record s { catalog = c })

-- `requester_role in ("admin", "editor")`
abbrev pub is_parent : String → Bool
is_parent role = str_eq role "admin" || str_eq role "editor"

-- The copy, if the library has it.
unfoldable pub get_library_book : (book_id library_id : ℕ) → Exec Kids OwnedBook
unfolding BookRepo.find_by_id
get_library_book book_id library_id = do
  found ← on_catalog (BookRepo.find_by_id book_id)
  book ← or_raise found lookup_error
  raise_if (not (book.library_id == library_id)) permission_error
  pure book

-- ===== src/Domain/Quiz.antt =====
-- app/domain/entities/quiz_question.py and quiz_attempt.py.
use jinbocho_catalog_v.Base.{ℕ, String, Bool, Option, List}

pub data QuizSource : Type 0 where
  ai manual : QuizSource

pub record QuizQuestion : Type 0 where
  pub id : ℕ
  pub owned_book_id : ℕ
  pub prompt : String
  pub choices : List String
  pub correct_index : ℕ
  pub source : QuizSource
  pub author_user_id : Option ℕ
  pub created_at : ℕ

pub record QuizAttempt : Type 0 where
  pub id : ℕ
  pub owned_book_id : ℕ
  pub user_id : ℕ
  pub question_ids : List ℕ
  pub answers : List ℕ
  pub score : ℕ
  pub total : ℕ
  pub passed : Bool
  pub created_at : ℕ

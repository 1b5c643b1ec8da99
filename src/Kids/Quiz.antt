-- ===== src/Kids/Quiz.antt =====
-- app/application/use_cases/kids/quiz.py, with quiz_question_repository.py and
-- quiz_attempt_repository.py: writing a question, and submitting and listing attempts.
pub mod Attempts
use jinbocho_catalog_v.Base.{
  ℕ, String, Bool, true, false, Option, none, some, List, [], ◌∷◌, not, ◌==◌, ◌||◌, any, contains,
  length, ltb, map,
}
use jinbocho_catalog_v.Base.Table
use jinbocho_catalog_v.Domain.Quiz.{QuizQuestion, QuizAttempt, manual}
use jinbocho_catalog_v.Domain.Errors.{lookup_error, permission_error, value_error}
use jinbocho_catalog_v.Exec.{Exec, pure, gets, modify, raise_if, ◌>>=◌, ◌>>◌}
use jinbocho_catalog_v.Services.QuizScoring.{score}
use jinbocho_catalog_v.Kids.State.{Kids, get_library_book}

abbrev pub is_empty {ℓ} : {A : Type ℓ} → List A → Bool
is_empty [] = true
is_empty (x ∷ xs) = false

abbrev pub keys : List (ℕ × ℕ) → List ℕ
keys answers = map (λ (a : ℕ × ℕ). a.0) answers

abbrev pub choices_of : List (ℕ × ℕ) → List ℕ
choices_of answers = map (λ (a : ℕ × ℕ). a.1) answers

abbrev pub questions_by_ids : List ℕ → List QuizQuestion → List QuizQuestion
questions_by_ids ids questions = Table.select (λ (q : QuizQuestion). contains q.id ids) questions

unfoldable pub add_question : QuizQuestion → Exec Kids QuizQuestion
add_question q = do modify (λ s. record s { questions = Table.insert q s.questions }); pure q

unfoldable pub create_manual_quiz_question :
    (book_id library_id author : ℕ)
    → String
    → List String
    → (correct_index : ℕ) → Bool
    → (new_id now : ℕ) → Exec Kids QuizQuestion
unfolding get_library_book add_question
create_manual_quiz_question book_id library_id author prompt choices correct_index kids_mode new_id
      now =
    do
      raise_if (not kids_mode) permission_error
      get_library_book book_id library_id
      raise_if (not (ltb correct_index (length choices))) value_error
      add_question (record {
        id = new_id;
        owned_book_id = book_id;
        prompt = prompt;
        choices = choices;
        correct_index = correct_index;
        source = manual;
        author_user_id = some author;
        created_at = now;
      })

pub record SubmitQuizAttemptInput : Type 0 where
  pub owned_book_id : ℕ
  pub library_id : ℕ
  pub user_id : ℕ
  pub kids_mode_enabled : Bool
  pub answers : List (ℕ × ℕ)

-- Some question is not there, or is about another copy.
abbrev pub any_strange : ℕ → List (ℕ × ℕ) → List QuizQuestion → Bool
any_strange book answers questions =
    not (length questions == length (keys answers))
    || any (λ (q : QuizQuestion). not (q.owned_book_id == book)) questions

abbrev pub new_attempt : SubmitQuizAttemptInput → List QuizQuestion → (new_id now : ℕ) → QuizAttempt
new_attempt inp questions new_id now =
    let result = score questions inp.answers in
    record {
      id = new_id;
      owned_book_id = inp.owned_book_id;
      user_id = inp.user_id;
      question_ids = keys inp.answers;
      answers = choices_of inp.answers;
      score = result.score;
      total = result.total;
      passed = result.passed;
      created_at = now;
    }

unfoldable pub submit_quiz_attempt :
    SubmitQuizAttemptInput → (new_id now : ℕ) → Exec Kids QuizAttempt
unfolding get_library_book
submit_quiz_attempt inp new_id now = do
  raise_if (not inp.kids_mode_enabled) permission_error
  raise_if (is_empty inp.answers) value_error
  get_library_book inp.owned_book_id inp.library_id
  questions ← gets (λ s. questions_by_ids (keys inp.answers) s.questions)
  raise_if (any_strange inp.owned_book_id inp.answers questions) lookup_error
  let attempt = new_attempt inp questions new_id now
  modify (λ s. record s { attempts = Table.insert attempt s.attempts })
  pure attempt

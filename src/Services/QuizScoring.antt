-- ===== src/Services/QuizScoring.antt =====
-- app/application/services/quiz_scoring_service.py. The threshold 0.7 is compared as a fraction:
-- `correct / total >= 0.7` in double precision is `10 * correct >= 7 * total`, since rounding is
-- monotone and the quotients of such small numbers that are not 7/10 do not round to it.
pub mod Answers
use jinbocho_catalog_v.Base.{
  ℕ, Bool, true, false, Option, none, some, List, [], ◌∷◌, ◌==◌, ◌&&◌, ◌*◌, ltb, leb, opt_eq,
  length, count_if, if◌then◌else◌,
}
use jinbocho_catalog_v.Domain.Quiz.{QuizQuestion}

pub record QuizScoreResult : Type 0 where
  pub score : ℕ
  pub total : ℕ
  pub passed : Bool

-- `answers.get(question_id)`, of a dict in the order of its keys
abbrev pub answer_to : ℕ → List (ℕ × ℕ) → Option ℕ
answer_to q [] = none
answer_to q ((k, i) ∷ answers) = if k == q then some i else answer_to q answers

abbrev pub is_right : List (ℕ × ℕ) → QuizQuestion → Bool
is_right answers q = opt_eq (answer_to q.id answers) (some q.correct_index)

unfoldable pub score : List QuizQuestion → List (ℕ × ℕ) → QuizScoreResult
score questions answers =
    let total = length questions in
    let correct = count_if (is_right answers) questions in
    record {
      score = correct;
      total = total;
      passed = ltb 0 total && leb (7 * total) (10 * correct);
    }

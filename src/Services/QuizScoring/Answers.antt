-- ===== src/Services/QuizScoring/Answers.antt =====
-- The score, counted over the answers instead of the questions.
use jinbocho_catalog_v.Base.{
  ℕ, ◌≡◌, refl, ◌≤◌, ◌<◌, ◌↔◌, ◌+◌, ◌*◌, ap, inl, inr, Bool, true, false, Option, none, some, List,
  [], ◌∷◌, arith, ◌==◌, length, count_if, count_if-le-length, if◌then◌else◌, Bool-cases,
}
use jinbocho_catalog_v.Base.Table
use jinbocho_catalog_v.Base.Table.{IsKeyed}
use jinbocho_catalog_v.Domain.Quiz.{QuizQuestion}
use jinbocho_catalog_v.Services.QuizScoring.{answer_to, is_right, score}

-- The score is at most the number of questions, and the quiz is passed exactly with one question at
-- least and seven tenths of them right.
pub score_bounds :
    (questions : List QuizQuestion) (answers : List (ℕ × ℕ))
    → let r = score questions answers in
      (r.score ≤ r.total)
      × (r.total ≡ length questions)
      × ((r.passed ≡ true) ↔ ((0 < r.total) × (7 * r.total ≤ 10 * r.score)))
unfolding score
score_bounds questions answers =
    (count_if-le-length (is_right answers) questions, refl, ground arith)

abbrev pub question_by_id : ℕ → List QuizQuestion → Option QuizQuestion
question_by_id k questions = Table.get (λ (q : QuizQuestion). q.id) k questions

-- The key and the choice of an answer are those of a question.
abbrev pub is_right_answer : List QuizQuestion → ℕ × ℕ → Bool
is_right_answer questions (k, i) = elim (question_by_id k questions) [
  | none ↦ false
  | some q ↦ i == q.correct_index
]

abbrev pub one_if : Bool → ℕ
one_if b = if b then 1 else 0

-- One answer more, to a question that had none, adds one right question if it is right.
count_if-answer :
    (k i : ℕ) (answers : List (ℕ × ℕ)) (questions : List QuizQuestion)
    → IsKeyed (λ (q : QuizQuestion). q.id) questions
    → answer_to k answers ≡ none
    → count_if (is_right ((k, i) ∷ answers)) questions
      ≡ one_if (is_right_answer questions (k, i)) + count_if (is_right answers) questions
count_if-answer k i answers [] keyed fresh = refl
count_if-answer k i answers (q ∷ questions) keyed fresh = elim (Bool-cases (q.id == k)) [
  | inl e ↦
      let same : q.id ≡ k = ground arith in
      ground (
        arith,
        count_if-answer k i answers questions keyed.1 fresh,
        Table.find-none_of_count (λ (x : QuizQuestion). x.id == q.id) questions keyed.0,
        ap (λ (j : ℕ). answer_to j answers) same,
        ap (λ (j : ℕ). question_by_id j questions) same,
      )
  | inr e ↦ ground (arith, count_if-answer k i answers questions keyed.1 fresh)
]

-- No question is answered twice: the keys of a dict.
abbrev pub IsDict : List (ℕ × ℕ) → Type 0
IsDict [] = Unit
IsDict ((k, i) ∷ answers) = (answer_to k answers ≡ none) × IsDict answers

-- With distinct question ids and distinct keys, the score is the number of answers whose key is the
-- id of one of the questions and whose choice is that question's.
pub score-eq-count_answers :
    (questions : List QuizQuestion) (answers : List (ℕ × ℕ))
    → IsKeyed (λ (q : QuizQuestion). q.id) questions
    → IsDict answers
    → (score questions answers).score ≡ count_if (is_right_answer questions) answers
unfolding score
score-eq-count_answers questions [] keyed dict = no_answer questions
  where
    no_answer : (qs : List QuizQuestion) → count_if (is_right []) qs ≡ 0
    no_answer [] = refl
    no_answer (q ∷ qs) = no_answer qs
score-eq-count_answers questions ((k, i) ∷ answers) keyed dict = ground (
  arith,
  count_if-answer k i answers questions keyed dict.0,
  score-eq-count_answers questions answers keyed dict.1,
)

-- ===== src/Kids/Quiz/Attempts.antt =====
-- What an attempt that is submitted records.
use jinbocho_catalog_v.Base.{
  ℕ, String, suc, ◌≢◌, ◌⊎◌, ◌≡◌, refl, ◌≤◌, ◌<◌, ◌↔◌, ◌*◌, ap, inl, inr, Bool, true, some, List, [],
  ◌∷◌, ◌++◌, arith, length, contains, count_if, All,
}
use jinbocho_catalog_v.Base.Table
use jinbocho_catalog_v.Base.Table.{IsKeyed}
use jinbocho_catalog_v.Domain.Quiz.{QuizQuestion, QuizAttempt}
use jinbocho_catalog_v.Exec.{ok, Result-cases}
use jinbocho_catalog_v.Catalog.Access.{library_in}
use jinbocho_catalog_v.Services.QuizScoring.Answers.{
  IsDict, is_right_answer, score-eq-count_answers, score_bounds,
}
use jinbocho_catalog_v.Kids.State.{Kids}
use jinbocho_catalog_v.Kids.Quiz.{
  SubmitQuizAttemptInput, keys, questions_by_ids, new_attempt, submit_quiz_attempt,
  create_manual_quiz_question,
}

-- Questions that are asked for are found among those asked for.
count_if-asked :
    (asked : List ℕ) (questions : List QuizQuestion) (answers : List (ℕ × ℕ))
    → All (λ (a : ℕ × ℕ). contains a.0 asked ≡ true) answers
    → count_if (is_right_answer (questions_by_ids asked questions)) answers
      ≡ count_if (is_right_answer questions) answers
count_if-asked asked questions [] h = refl
count_if-asked asked questions ((k, i) ∷ answers) h = ground (
  arith,
  h.0,
  count_if-asked asked questions answers h.1,
  Table.get-select_ids (λ (q : QuizQuestion). q.id) k asked questions,
)

All-more :
    (k : ℕ) (asked : List ℕ) (answers : List (ℕ × ℕ))
    → All (λ (a : ℕ × ℕ). contains a.0 asked ≡ true) answers
    → All (λ (a : ℕ × ℕ). contains a.0 (k ∷ asked) ≡ true) answers
All-more k asked [] h = tt
All-more k asked (a ∷ answers) h = (ground arith, All-more k asked answers h.1)

All-keys :
    (answers : List (ℕ × ℕ)) → All (λ (a : ℕ × ℕ). contains a.0 (keys answers) ≡ true) answers
All-keys [] = tt
All-keys ((k, i) ∷ answers) = (ground arith, All-more k (keys answers) answers (All-keys answers))

length-keys : (answers : List (ℕ × ℕ)) → length (keys answers) ≡ length answers
length-keys [] = refl
length-keys (a ∷ answers) = ap suc (length-keys answers)

module _ (inp : SubmitQuizAttemptInput) (new_id now : ℕ) (s : Kids) where
  -- An attempt that is accepted is added to the table; its total is the number of answers, its
  -- score is the number of answers that choose the right index of the question with their key, and
  -- it is passed exactly if seven tenths of the answers or more are right. This needs distinct ids
  -- of questions, and distinct keys, as a dict has.
  pub submit_quiz_attempt-score :
      {a : QuizAttempt}
      → IsKeyed (λ (q : QuizQuestion). q.id) s.questions
      → IsDict inp.answers
      → (submit_quiz_attempt inp new_id now s).0 ≡ ok a
      → ((submit_quiz_attempt inp new_id now s).1.attempts ≡ s.attempts ++ (a ∷ []))
        × (a.total ≡ length inp.answers)
        × (a.score ≡ count_if (is_right_answer s.questions) inp.answers)
        × ((a.passed ≡ true) ↔ ((0 < a.total) × (7 * a.total ≤ 10 * a.score)))
  unfolding submit_quiz_attempt
  submit_quiz_attempt-score {a = a} keyed dict h =
      let asked = questions_by_ids (keys inp.answers) s.questions in
      let kept =
        Table.select-IsKeyed (λ (q : QuizQuestion). q.id)
          (λ (q : QuizQuestion). contains q.id (keys inp.answers)) s.questions keyed in
      let bounds = score_bounds asked inp.answers in
      (
        ground arith,
        ground (arith, bounds, length-keys inp.answers),
        ground (
          arith,
          score-eq-count_answers asked inp.answers kept dict,
          count_if-asked (keys inp.answers) s.questions inp.answers (All-keys inp.answers),
        ),
        (let made : a ≡ new_attempt inp asked new_id now = ground arith in rw made bounds.2),
      )

  -- An attempt writes nothing unless kids mode is on, there is an answer, and the copy is of the
  -- caller's library.
  pub submit_quiz_attempt-guards :
      ((submit_quiz_attempt inp new_id now s).1 ≡ s)
      ⊎ ((inp.kids_mode_enabled ≡ true)
          × (inp.answers ≢ [])
          × (library_in s.catalog inp.owned_book_id ≡ some inp.library_id))
  unfolding submit_quiz_attempt
  submit_quiz_attempt-guards = elim (Result-cases (submit_quiz_attempt inp new_id now s).0) [
    | inr (e, out) ↦ inl (ground arith)
    | inl (a, out) ↦ inr (ground arith, ground arith, ground arith)
  ]

-- A question that is written by hand and accepted has its right answer among its choices and is
-- about a copy of the caller's library, and kids mode is on.
pub create_manual_quiz_question-in_range :
    (book lib author : ℕ) (prompt : String) (choices : List String) (index : ℕ) (kids_mode : Bool)
    (new_id now : ℕ) (s : Kids) {q : QuizQuestion}
    → (create_manual_quiz_question book lib author prompt choices index kids_mode new_id now s).0
      ≡ ok q
    → (q.correct_index < length q.choices)
      × (kids_mode ≡ true)
      × (library_in s.catalog q.owned_book_id ≡ some lib)
unfolding create_manual_quiz_question
create_manual_quiz_question-in_range book lib author prompt choices index kids_mode new_id now s h =
    (ground arith, ground arith, ground arith)

-- ===== src/Examples/Tools.antt =====
-- The services, on sample inputs.
use jinbocho_catalog_v.Base.{ℕ, ◌≡◌, refl, arith, Option, some, List, [], ◌∷◌, count_if}
use jinbocho_catalog_v.Domain.Quiz.{QuizQuestion, manual}
use jinbocho_catalog_v.Services.Pagination.{page_of, fetch_all_pages, fetch_all_pages-rows}
use jinbocho_catalog_v.Services.QuizScoring.{score}
use jinbocho_catalog_v.Services.QuizScoring.Answers.{is_right_answer, score-eq-count_answers}

abbrev rows : List ℕ
rows = 7 ∷ 8 ∷ 9 ∷ 10 ∷ []

-- Two full pages and an empty one.
fetch_all_pages-rows_example :
    fetch_all_pages (λ limit offset. page_of rows limit offset) 2 5 ≡ some rows
fetch_all_pages-rows_example =
    fetch_all_pages-rows rows (λ limit offset. page_of rows limit offset) 2 5 (λ o. refl)
      (omega arith) (omega arith)

abbrev asked : (id correct : ℕ) → QuizQuestion
asked id correct = record {
  id = id;
  owned_book_id = 10;
  prompt = "Who?";
  choices = "Paul" ∷ "Leto" ∷ [];
  correct_index = correct;
  source = manual;
  author_user_id = Option.none;
  created_at = 1;
}

-- The second answer is to no question of the quiz.
score-eq-count_answers_example :
    (score (asked 1 0 ∷ asked 2 1 ∷ []) ((1, 0) ∷ (3, 1) ∷ [])).score
    ≡ count_if (is_right_answer (asked 1 0 ∷ asked 2 1 ∷ [])) ((1, 0) ∷ (3, 1) ∷ [])
score-eq-count_answers_example =
    score-eq-count_answers (asked 1 0 ∷ asked 2 1 ∷ []) ((1, 0) ∷ (3, 1) ∷ []) (refl, (refl, tt))
      (refl, (refl, tt))

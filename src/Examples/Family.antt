-- ===== src/Examples/Family.antt =====
-- A family: a child, 7, and a parent, 5, with a quiz on copy 10 and a mystery pick.
use jinbocho_catalog_v.Base.{ℕ, ◌≡◌, refl, ◌⊎◌, ◌<◌, suc, ◌-◌, true, none, some, [], ◌∷◌, length}
use jinbocho_catalog_v.Domain.Errors.{Error}
use jinbocho_catalog_v.Domain.Quiz.{QuizQuestion, manual}
use jinbocho_catalog_v.Exec.{ok, err}
use jinbocho_catalog_v.Catalog.Access.{library_in}
use jinbocho_catalog_v.Catalog.ReadingStatus.Effects.{reader_in}
use jinbocho_catalog_v.Kids.State.{
  FamilyChallenge, ReadingSession, together, minutes, MysteryPick, proposed, accepted, Kids,
}
use jinbocho_catalog_v.Kids.Quiz.{
  SubmitQuizAttemptInput, submit_quiz_attempt, create_manual_quiz_question, new_attempt,
}
use jinbocho_catalog_v.Kids.Quiz.Attempts.{
  submit_quiz_attempt-score, create_manual_quiz_question-in_range,
}
use jinbocho_catalog_v.Kids.Sessions.{LogReadingSessionInput, log_reading_session}
use jinbocho_catalog_v.Kids.Sessions.Logging.{log_reading_session-reader}
use jinbocho_catalog_v.Kids.Challenges.{
  CreateFamilyChallengeInput, count_progress, challenge_by_id, library_reads, library_sessions,
  get_family_challenge_progress,
}
use jinbocho_catalog_v.Kids.Challenges.Days.{of_day, sum_days, get_family_challenge_progress-days}
use jinbocho_catalog_v.Kids.Picks.{pick_by_id, accept_mystery_pick}
use jinbocho_catalog_v.Kids.Picks.Reveal.{accept_mystery_pick-reveals}
use jinbocho_catalog_v.Examples.{catalog}

abbrev question : (id correct : ℕ) → QuizQuestion
question id correct = record {
  id = id;
  owned_book_id = 10;
  prompt = "Who rides the worm?";
  choices = "Paul" ∷ "Leto" ∷ [];
  correct_index = correct;
  source = manual;
  author_user_id = some 5;
  created_at = 1;
}

abbrev pick : MysteryPick
pick = record {
  id = 1;
  library_id = 1;
  owned_book_id = 10;
  child_user_id = 7;
  hint_text = "A desert.";
  status = proposed;
  created_by = some 5;
  created_at = 1;
}

abbrev family : Kids
family = record {
  catalog = catalog;
  questions = question 1 0 ∷ question 2 1 ∷ [];
  attempts = [];
  sessions = [];
  challenges = [];
  picks = pick ∷ [];
}

-- The first answer is right and the second is wrong.
abbrev answers : SubmitQuizAttemptInput
answers = record {
  owned_book_id = 10;
  library_id = 1;
  user_id = 7;
  kids_mode_enabled = true;
  answers = (1, 0) ∷ (2, 0) ∷ [];
}

submit_quiz_attempt-score_example :
    (submit_quiz_attempt answers 1 9 family).1.attempts
    ≡ new_attempt answers family.questions 1 9 ∷ []
unfolding submit_quiz_attempt
submit_quiz_attempt-score_example =
    (submit_quiz_attempt-score answers 1 9 family (refl, (refl, tt)) (refl, (refl, tt)) refl).0

create_manual_quiz_question-in_range_example :
    (1 < length (question 3 1).choices) × (true ≡ true) × (library_in family.catalog 10 ≡ some 1)
unfolding create_manual_quiz_question
create_manual_quiz_question-in_range_example =
    create_manual_quiz_question-in_range 10 1 5 "Who?" (question 3 1).choices 1 true 3 1 family refl

-- The parent reads copy 10 with the child.
abbrev evening : LogReadingSessionInput
evening = record {
  owned_book_id = 10;
  library_id = 1;
  target_user_id = 7;
  requester_user_id = 5;
  requester_role = "editor";
  kids_mode_enabled = true;
  minutes = some 20;
  pages = none;
  session_date = none;
  mode = together;
}

log_reading_session-reader_example :
    let before = reader_in family.catalog 10 in
    let after = reader_in (log_reading_session evening 1 9 8 family).1.catalog 10 in
    (after ≡ before)
    ⊎ ((before ≡ none) × (after ≡ some 7) × (together ≡ together) × (10 ≡ evening.owned_book_id))
log_reading_session-reader_example = log_reading_session-reader evening 1 9 8 family 10

abbrev session : (spent day : ℕ) → ReadingSession
session spent day = record {
  id = day;
  owned_book_id = 10;
  user_id = 7;
  minutes = some spent;
  pages = none;
  session_date = day;
  mode = together;
  logged_by_user_id = some 5;
  created_at = 9;
}

-- Twenty minutes on the first day of the window, ten on its last, and five on the day after.
abbrev evenings : Kids
evenings = record family {
  challenges =
      (record {
        id = 1;
        library_id = 1;
        title = "Half an hour";
        metric = minutes;
        target = 30;
        starts_on = 3;
        ends_on = 4;
        created_by = some 5;
        created_at = 9;
      })
      ∷ [];
  sessions = session 20 3 ∷ session 10 4 ∷ session 5 5 ∷ [];
}

get_family_challenge_progress-days_example :
    let call = get_family_challenge_progress 1 1 true evenings in
    let IsAllowed = λ (c : FamilyChallenge).
      (true ≡ true) × (challenge_by_id 1 evenings.challenges ≡ some c) × (c.library_id ≡ 1) in
    ((c : FamilyChallenge) × IsAllowed c
      × (call ≡ (
        ok (record {
          challenge = c;
          current =
              sum_days
                (λ d. of_day c.metric d (library_reads 1 evenings) (library_sessions 1 evenings))
                c.starts_on
                (suc c.ends_on - c.starts_on);
        }),
        evenings,
      )))
    ⊎ ((e : Error) × (call ≡ (err e, evenings)) × ((c : FamilyChallenge) → IsAllowed c → ⊥))
get_family_challenge_progress-days_example = get_family_challenge_progress-days 1 1 true evenings

thirty_minutes :
    (c : FamilyChallenge) × ((get_family_challenge_progress 1 1 true evenings).0
      ≡ ok (record { challenge = c; current = 30 }))
unfolding get_family_challenge_progress count_progress
thirty_minutes = (_, refl)

abbrev hundred : CreateFamilyChallengeInput
hundred = record {
  library_id = 1;
  created_by = 5;
  kids_mode_enabled = true;
  title = "A hundred minutes";
  metric = minutes;
  target = 100;
  starts_on = 1;
  ends_on = 9;
}

accept_mystery_pick-reveals_example :
    let before = pick_by_id 1 family.picks in
    let after = pick_by_id 1 (accept_mystery_pick 1 1 7 true family).1.picks in
    (after ≡ before)
    ⊎ (◌≡◌ {A = ℕ} 1 1
        × (true ≡ true)
        × ((p : MysteryPick) × (before ≡ some p)
            × (p.child_user_id ≡ 7)
            × (p.library_id ≡ 1)
            × (after ≡ some (record p { status = accepted }))))
accept_mystery_pick-reveals_example = accept_mystery_pick-reveals 1 1 7 true family 1

-- ===== src/Kids/Challenges.antt =====
-- app/application/use_cases/kids/family_challenges.py, with family_challenge_repository.py. A read's
-- date is the day of its time.
pub mod Progress
pub mod Days
use jinbocho_catalog_v.Base.{
  ℕ, String, Bool, false, Option, none, some, List, [], ◌∷◌, ◌+◌, ◌/◌, not, ◌==◌, ◌&&◌, leb, ltb,
  is_some, or_else, length, count_if, if◌then◌else◌,
}
use jinbocho_catalog_v.Base.Table
use jinbocho_catalog_v.Domain.Book.{OwnedBook}
use jinbocho_catalog_v.Domain.Activity.{BookRead}
use jinbocho_catalog_v.Domain.Errors.{lookup_error, permission_error, value_error}
use jinbocho_catalog_v.Exec.{Exec, pure, gets, modify, or_raise, raise_if, ◌>>=◌, ◌>>◌}
use jinbocho_catalog_v.Catalog.State.{Catalog}
use jinbocho_catalog_v.Catalog.Access.{library_in}
use jinbocho_catalog_v.Kids.State.{
  ChallengeMetric, minutes, sessions, books, FamilyChallenge, ReadingSession, Kids,
}

abbrev pub challenge_by_id : ℕ → List FamilyChallenge → Option FamilyChallenge
challenge_by_id k rows = Table.get (λ (c : FamilyChallenge). c.id) k rows

pub record CreateFamilyChallengeInput : Type 0 where
  pub library_id : ℕ
  pub created_by : ℕ
  pub kids_mode_enabled : Bool
  pub title : String
  pub metric : ChallengeMetric
  pub target : ℕ
  pub starts_on : ℕ
  pub ends_on : ℕ

unfoldable pub create_family_challenge :
    CreateFamilyChallengeInput → (new_id now : ℕ) → Exec Kids FamilyChallenge
create_family_challenge inp new_id now = do
  raise_if (not inp.kids_mode_enabled) permission_error
  raise_if (leb inp.target 0) value_error
  raise_if (ltb inp.ends_on inp.starts_on) value_error
  let challenge : FamilyChallenge = record {
    id = new_id;
    library_id = inp.library_id;
    title = inp.title;
    metric = inp.metric;
    target = inp.target;
    starts_on = inp.starts_on;
    ends_on = inp.ends_on;
    created_by = some inp.created_by;
    created_at = now;
  }
  modify (λ s. record s { challenges = Table.insert challenge s.challenges })
  pure challenge

-- The challenge, if the library has it: the first lines of two use cases.
unfoldable pub get_challenge : (challenge_id library_id : ℕ) → Bool → Exec Kids FamilyChallenge
get_challenge challenge_id library_id kids_mode = do
  raise_if (not kids_mode) permission_error
  found ← gets (λ s. challenge_by_id challenge_id s.challenges)
  challenge ← or_raise found lookup_error
  raise_if (not (challenge.library_id == library_id)) permission_error
  pure challenge

unfoldable pub delete_family_challenge : (challenge_id library_id : ℕ) → Bool → Exec Kids (Unit {0})
unfolding get_challenge
delete_family_challenge challenge_id library_id kids_mode = do
  get_challenge challenge_id library_id kids_mode
  modify (λ s. record s {
    challenges = Table.delete (λ (c : FamilyChallenge). c.id) challenge_id s.challenges;
  })

abbrev pub in_window : ℕ → ℕ → ℕ → Bool
in_window starts_on ends_on day = leb starts_on day && leb day ends_on

-- `sum(s.minutes or 0 for s in …)`
abbrev pub sum_minutes : List ReadingSession → ℕ
sum_minutes [] = 0
sum_minutes (x ∷ rows) = or_else x.minutes 0 + sum_minutes rows

-- The join of `list_by_library`: rows whose copy is the library's.
abbrev pub is_of_library : ℕ → Catalog → ℕ → Bool
is_of_library library_id c book = elim (library_in c book) [
  | none ↦ false
  | some l ↦ l == library_id
]

abbrev pub library_reads : ℕ → Kids → List BookRead
library_reads lib s =
    Table.select (λ (r : BookRead). is_of_library lib s.catalog r.owned_book_id) s.catalog.reads

abbrev pub library_sessions : ℕ → Kids → List ReadingSession
library_sessions lib s =
    Table.select (λ (r : ReadingSession). is_of_library lib s.catalog r.owned_book_id) s.sessions

abbrev pub day_of : ℕ → ℕ
day_of time = time / 86400

-- The number, from the reads and the sessions of the whole library.
unfoldable pub count_progress :
    ChallengeMetric → (starts_on ends_on : ℕ) → List BookRead → List ReadingSession → ℕ
count_progress books a b reads rows =
    count_if (λ (r : BookRead). in_window a b (day_of r.read_at)) reads
count_progress minutes a b reads rows =
    sum_minutes (Table.select (λ (x : ReadingSession). in_window a b x.session_date) rows)
count_progress sessions a b reads rows =
    length (Table.select (λ (x : ReadingSession). in_window a b x.session_date) rows)

pub record FamilyChallengeProgress : Type 0 where
  pub challenge : FamilyChallenge
  pub current : ℕ

unfoldable pub get_family_challenge_progress :
    (challenge_id library_id : ℕ) → Bool → Exec Kids FamilyChallengeProgress
unfolding get_challenge
get_family_challenge_progress challenge_id library_id kids_mode = do
  found ← get_challenge challenge_id library_id kids_mode
  n ← gets (λ s.
      count_progress found.metric found.starts_on found.ends_on (library_reads library_id s)
        (library_sessions library_id s))
  pure (record { challenge = found; current = n })

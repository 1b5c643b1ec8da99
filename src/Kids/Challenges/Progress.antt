-- ===== src/Kids/Challenges/Progress.antt =====
-- The progress of a challenge over its window.
use jinbocho_catalog_v.Base.{
  ℕ, suc, ◌≡◌, ◌≤◌, ◌<◌, ◌+◌, true, false, List, [], ◌∷◌, ◌++◌, arith, length, count_if, ◌⊎◌, inl,
  inr,
}
use jinbocho_catalog_v.Base.Table.{select}
use jinbocho_catalog_v.Domain.Activity.{BookRead}
use jinbocho_catalog_v.Domain.Errors.{Error}
use jinbocho_catalog_v.Exec.{ok, err, Result-cases}
use jinbocho_catalog_v.Kids.State.{
  ChallengeMetric, minutes, sessions, books, FamilyChallenge, ReadingSession, Kids,
}
use jinbocho_catalog_v.Kids.Challenges.{
  CreateFamilyChallengeInput, create_family_challenge, in_window, sum_minutes, day_of,
  count_progress,
}

module _ (a b c : ℕ) (before : a ≤ b) (after : b ≤ c) where
  split_reads :
      (reads : List BookRead)
      → count_if (λ (r : BookRead). in_window a c (day_of r.read_at)) reads
        ≡ count_if (λ (r : BookRead). in_window a b (day_of r.read_at)) reads
          + count_if (λ (r : BookRead). in_window (suc b) c (day_of r.read_at)) reads
  split_reads [] = omega arith
  split_reads (r ∷ reads) = ground (arith, split_reads reads)

  split_minutes :
      (rows : List ReadingSession)
      → sum_minutes (select (λ (x : ReadingSession). in_window a c x.session_date) rows)
        ≡ sum_minutes (select (λ (x : ReadingSession). in_window a b x.session_date) rows)
          + sum_minutes (select (λ (x : ReadingSession). in_window (suc b) c x.session_date) rows)
  split_minutes [] = omega arith
  split_minutes (x ∷ rows) = ground (arith, split_minutes rows)

  split_sessions :
      (rows : List ReadingSession)
      → length (select (λ (x : ReadingSession). in_window a c x.session_date) rows)
        ≡ length (select (λ (x : ReadingSession). in_window a b x.session_date) rows)
          + length (select (λ (x : ReadingSession). in_window (suc b) c x.session_date) rows)
  split_sessions [] = omega arith
  split_sessions (x ∷ rows) = ground (arith, split_sessions rows)

  -- For every metric, the progress over a window is the sum of the progress up to a day in it and
  -- from the next day on.
  pub count_progress-split :
      (metric : ChallengeMetric) (reads : List BookRead) (rows : List ReadingSession)
      → count_progress metric a c reads rows
        ≡ count_progress metric a b reads rows + count_progress metric (suc b) c reads rows
  unfolding count_progress
  count_progress-split books reads rows = split_reads reads
  count_progress-split minutes reads rows = split_minutes rows
  count_progress-split sessions reads rows = split_sessions rows

-- A challenge is created exactly in kids mode, for a positive target and a window that does not end
-- before it starts; it is then added to the table, and otherwise nothing is written.
pub create_family_challenge_lem :
    (inp : CreateFamilyChallengeInput) (new_id now : ℕ) (s : Kids)
    → let (r, s') = create_family_challenge inp new_id now s in
      ((inp.kids_mode_enabled ≡ true)
        × (0 < inp.target)
        × (inp.starts_on ≤ inp.ends_on)
        × ((c : FamilyChallenge) × (r ≡ ok c) × (s'.challenges ≡ s.challenges ++ (c ∷ []))))
      ⊎ (((inp.kids_mode_enabled ≡ false) ⊎ ((inp.target ≡ 0) ⊎ (inp.ends_on < inp.starts_on)))
          × (s' ≡ s)
          × ((e : Error) × (r ≡ err e)))
unfolding create_family_challenge
create_family_challenge_lem inp new_id now s =
    elim (Result-cases (create_family_challenge inp new_id now s).0) [
      | inl (c, out) ↦ inl (ground arith, ground arith, ground arith, (c, out, ground arith))
      | inr (e, out) ↦ inr (refused e out, ground arith, (e, out))
    ]
  where
    refused :
        (e : Error)
        → (create_family_challenge inp new_id now s).0 ≡ err e
        → (inp.kids_mode_enabled ≡ false) ⊎ ((inp.target ≡ 0) ⊎ (inp.ends_on < inp.starts_on))
    refused e out = ground arith

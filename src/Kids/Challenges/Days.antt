-- ===== src/Kids/Challenges/Days.antt =====
-- The progress of a challenge, day by day.
use jinbocho_catalog_v.Base.{
  ℕ, zero, suc, ◌≡◌, refl, ◌+◌, ◌-◌, ◌*◌, ◌⊎◌, inl, inr, Bool, true, false, some, List, [], ◌∷◌,
  arith, ◌==◌, ◌&&◌, leb, ltb, or_else, if◌then◌else◌, Option-cases, length, count_if, fun_ext, ap,
}
use jinbocho_catalog_v.Base.Table.{select}
use jinbocho_catalog_v.Domain.Activity.{BookRead}
use jinbocho_catalog_v.Domain.Errors.{Error}
use jinbocho_catalog_v.Exec.{ok, err, Result-cases}
use jinbocho_catalog_v.Kids.State.{
  ChallengeMetric, minutes, sessions, books, FamilyChallenge, ReadingSession, Kids,
}
use jinbocho_catalog_v.Kids.Challenges.{
  in_window, sum_minutes, day_of, count_progress, challenge_by_id, library_reads, library_sessions,
  get_family_challenge_progress,
}

-- From the midnight before the day's first second to the next.
abbrev pub is_on : ℕ → BookRead → Bool
is_on day r = leb (day * 86400) r.read_at && ltb r.read_at (suc day * 86400)

abbrev pub one_if : Bool → ℕ
one_if true = 1
one_if false = 0

-- What one day adds: a book for each read, the minutes of the sessions, or their number.
abbrev pub reads_on : ℕ → List BookRead → ℕ
reads_on day [] = 0
reads_on day (r ∷ rows) = one_if (is_on day r) + reads_on day rows

abbrev pub minutes_on : ℕ → List ReadingSession → ℕ
minutes_on day [] = 0
minutes_on day (x ∷ rows) =
    (if x.session_date == day then or_else x.minutes 0 else 0) + minutes_on day rows

abbrev pub sessions_on : ℕ → List ReadingSession → ℕ
sessions_on day [] = 0
sessions_on day (x ∷ rows) = (one_if (x.session_date == day)) + sessions_on day rows

abbrev pub of_day : ChallengeMetric → ℕ → List BookRead → List ReadingSession → ℕ
of_day books day reads rows = reads_on day reads
of_day minutes day reads rows = minutes_on day rows
of_day sessions day reads rows = sessions_on day rows

-- The sum over `n` days from a day on.
abbrev pub sum_days : (ℕ → ℕ) → (from n : ℕ) → ℕ
sum_days f from zero = 0
sum_days f from (suc n) = f from + sum_days f (suc from) n

sum_days-zero : (from n : ℕ) → sum_days (λ d. 0) from n ≡ 0
sum_days-zero from zero = refl
sum_days-zero from (suc n) = omega (arith, sum_days-zero (suc from) n)

sum_days-add :
    (f g : ℕ → ℕ) (from n : ℕ)
    → sum_days (λ d. f d + g d) from n ≡ sum_days f from n + sum_days g from n
sum_days-add f g from zero = omega arith
sum_days-add f g from (suc n) = omega (arith, sum_days-add f g (suc from) n)

-- A day adds its amount to the sum exactly if it is one of the days.
sum_days-one :
    (amount day from n : ℕ)
    → sum_days (λ d. if day == d then amount else 0) from n
      ≡ (if leb from day && ltb day (from + n) then amount else 0)
sum_days-one amount day from zero = ground arith
sum_days-one amount day from (suc n) = ground (arith, sum_days-one amount day (suc from) n)

is_on-day : (d : ℕ) (r : BookRead) → is_on d r ≡ (day_of r.read_at == d)
is_on-day d r = ground arith

sum_days-one_if :
    (day from n : ℕ)
    → sum_days (λ d. one_if (day == d)) from n ≡ one_if (leb from day && ltb day (from + n))
sum_days-one_if day from zero = ground arith
sum_days-one_if day from (suc n) = ground (arith, sum_days-one_if day (suc from) n)

-- A test of a window by the days from its first on.
in_window-days : (a b day : ℕ) → (leb a day && ltb day (a + (suc b - a))) ≡ in_window a b day
in_window-days a b day = ground arith

module _ (a b : ℕ) where
  reads-days :
      (rows : List BookRead)
      → count_if (λ (r : BookRead). in_window a b (day_of r.read_at)) rows
        ≡ sum_days (λ d. reads_on d rows) a (suc b - a)
  reads-days [] = ground (arith, sum_days-zero a (suc b - a))
  reads-days (r ∷ rows) =
      let day = day_of r.read_at in
      let on : ℕ → ℕ = λ d. one_if (is_on d r) in
      let that : ℕ → ℕ = λ d. one_if (day == d) in
      let here : on ≡ that = fun_ext (λ (d : ℕ). ap one_if (is_on-day d r)) in
      ground (
        arith,
        reads-days rows,
        sum_days-add on (λ d. reads_on d rows) a (suc b - a),
        ap (λ (f : ℕ → ℕ). sum_days f a (suc b - a)) here,
        sum_days-one_if day a (suc b - a),
        in_window-days a b day,
      )

  minutes-days :
      (rows : List ReadingSession)
      → sum_minutes (select (λ (x : ReadingSession). in_window a b x.session_date) rows)
        ≡ sum_days (λ d. minutes_on d rows) a (suc b - a)
  minutes-days [] = ground (arith, sum_days-zero a (suc b - a))
  minutes-days (x ∷ rows) =
      let amount : ℕ = or_else x.minutes 0 in
      let day = x.session_date in
      ground (
        arith,
        minutes-days rows,
        sum_days-add (λ d. if day == d then amount else 0) (λ d. minutes_on d rows) a (suc b - a),
        sum_days-one amount day a (suc b - a),
        in_window-days a b day,
      )

  sessions-days :
      (rows : List ReadingSession)
      → length (select (λ (x : ReadingSession). in_window a b x.session_date) rows)
        ≡ sum_days (λ d. sessions_on d rows) a (suc b - a)
  sessions-days [] = ground (arith, sum_days-zero a (suc b - a))
  sessions-days (x ∷ rows) =
      let day = x.session_date in
      ground (
        arith,
        sessions-days rows,
        sum_days-add (λ d. one_if (day == d)) (λ d. sessions_on d rows) a (suc b - a),
        sum_days-one_if day a (suc b - a),
        in_window-days a b day,
      )

  count_progress-days :
      (metric : ChallengeMetric) (reads : List BookRead) (rows : List ReadingSession)
      → count_progress metric a b reads rows
        ≡ sum_days (λ d. of_day metric d reads rows) a (suc b - a)
  unfolding count_progress
  count_progress-days books reads rows = reads-days reads
  count_progress-days minutes reads rows = minutes-days rows
  count_progress-days sessions reads rows = sessions-days rows

-- A call for the progress returns exactly in kids mode, for a challenge that is there and is the
-- library's. It then gives this challenge with the sum, day by day from the first day of its window to
-- the last, both included, of what the library has on that day for the challenge's metric: the number of
-- the reads whose time falls on the day, the minutes of its sessions, or their number. Nothing is
-- written.
pub get_family_challenge_progress-days :
    (challenge_id lib : ℕ) (kids_mode : Bool) (s : Kids)
    → let call = get_family_challenge_progress challenge_id lib kids_mode s in
      let IsAllowed = λ (c : FamilyChallenge).
        (kids_mode ≡ true)
        × (challenge_by_id challenge_id s.challenges ≡ some c)
        × (c.library_id ≡ lib) in
      ((c : FamilyChallenge) × IsAllowed c
        × (call ≡ (
          ok (record {
            challenge = c;
            current =
                sum_days
                  (λ d. of_day c.metric d (library_reads lib s) (library_sessions lib s))
                  c.starts_on
                  (suc c.ends_on - c.starts_on);
          }),
          s,
        )))
      ⊎ ((e : Error) × (call ≡ (err e, s)) × ((c : FamilyChallenge) → IsAllowed c → ⊥))
unfolding get_family_challenge_progress
get_family_challenge_progress-days challenge_id lib kids_mode s =
    elim (Result-cases (get_family_challenge_progress challenge_id lib kids_mode s).0) [
      | inr (e, out) ↦ inr (e, ground arith, λ c h. ground (arith, h.0, h.1, h.2))
      | inl (p, out) ↦ elim (Option-cases (challenge_by_id challenge_id s.challenges)) [
        | inl gone ↦ absurd (ground arith)
        | inr (c, found) ↦
            let all =
              count_progress-days c.starts_on c.ends_on c.metric (library_reads lib s)
                (library_sessions lib s) in
            inl (c, (ground arith, found, ground arith), rw (← all) (ground arith))
      ]
    ]

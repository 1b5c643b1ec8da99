-- ===== src/Catalog/Reminders/Turns.antt =====
-- The turns of the loop over the loans that are due, and the rows that it leaves.
use jinbocho_catalog_v.Base.{
  ℕ, suc, String, ◌≡◌, refl, inl, inr, Bool, false, Option, none, some, List, [], ◌∷◌, arith, ◌==◌,
  if◌then◌else◌, Bool-cases, All,
}
use jinbocho_catalog_v.Base.Table.{select}
use jinbocho_catalog_v.Domain.Record.{BibliographicRecord}
use jinbocho_catalog_v.Domain.Book.{OwnedBook}
use jinbocho_catalog_v.Domain.Activity.{BookLoan}
use jinbocho_catalog_v.Catalog.BookRepo.{book_by_id}
use jinbocho_catalog_v.Catalog.RecordRepo.{record_by_id}
use jinbocho_catalog_v.Catalog.LoanRepo.{is_due, mark_sent_rows}
use jinbocho_catalog_v.Catalog.Reminders.{title_of, notified}

-- No loan has the id `k`.
abbrev pub IsFresh : ℕ → List BookLoan → Type 0
IsFresh k rows = All (λ (l : BookLoan). (l.id == k) ≡ false) rows

-- No two loans have one id, their primary key.
abbrev pub IsKeyed : List BookLoan → Type 0
IsKeyed [] = Unit
IsKeyed (l ∷ rows) = IsFresh l.id rows × IsKeyed rows

mark_sent_rows-IsFresh :
    (k now : ℕ) (rows : List BookLoan) → IsFresh k rows → mark_sent_rows k now rows ≡ rows
mark_sent_rows-IsFresh k now [] fresh = refl
mark_sent_rows-IsFresh k now (r ∷ rows) fresh =
    ground (arith, fresh.0, mark_sent_rows-IsFresh k now rows fresh.1)

select-IsFresh :
    (k : ℕ) (p : BookLoan → Bool) (rows : List BookLoan)
    → IsFresh k rows
    → IsFresh k (select p rows)
select-IsFresh k p [] fresh = tt
select-IsFresh k p (r ∷ rows) fresh = elim (Bool-cases (p r)) [
  | inl hit ↦ rw hit (fresh.0, select-IsFresh k p rows fresh.1)
  | inr miss ↦ rw miss (select-IsFresh k p rows fresh.1)
]

module _ (notify : (turn library_id : ℕ) → String → String → (due_date : ℕ) → Bool) (now : ℕ)
    (books : List OwnedBook) (records : List BibliographicRecord) where
  -- The copy of the loan is there, and the notifier passes at this turn.
  abbrev pub passes_of : ℕ → Option OwnedBook → BookLoan → Bool
  passes_of turn none l = false
  passes_of turn (some b) l =
      notified notify now turn b.library_id
        (title_of (record_by_id b.bibliographic_record_id records)) l l.due_date

  abbrev pub passes : ℕ → BookLoan → Bool
  passes turn l = passes_of turn (book_by_id l.owned_book_id books) l

  -- The turns that pass, and the loans whose turn fails.
  abbrev pub count_passed : (turn : ℕ) → List BookLoan → ℕ
  count_passed turn [] = 0
  count_passed turn (l ∷ due) =
      let rest = count_passed (suc turn) due in if passes turn l then suc rest else rest

  abbrev pub failed : (turn : ℕ) → List BookLoan → List BookLoan
  failed turn [] = []
  failed turn (l ∷ due) =
      let rest = failed (suc turn) due in if passes turn l then rest else l ∷ rest

  -- The loans after the turns, each of which marks a loan by its id.
  abbrev pub marks : (turn : ℕ) → List BookLoan → List BookLoan → List BookLoan
  marks turn [] rows = rows
  marks turn (l ∷ due) rows =
      marks (suc turn) due (if passes turn l then mark_sent_rows l.id now rows else rows)

  abbrev pub reminded_row : (turn : ℕ) → BookLoan → BookLoan
  reminded_row turn r = if passes turn r then record r { reminder_sent_at = some now } else r

  module _ (before : ℕ) where
    -- The same in one pass over the table: a loan that is due takes a turn, and its row alone is marked
    -- if the turn passes.
    abbrev pub reminded : (turn : ℕ) → List BookLoan → List BookLoan
    reminded turn [] = []
    reminded turn (r ∷ rows) =
        let took = reminded_row turn r ∷ reminded (suc turn) rows in
        let other = r ∷ reminded turn rows in if is_due before r then took else other

    marks-cons :
        (turn : ℕ) (due : List BookLoan) (r : BookLoan) (rows : List BookLoan)
        → IsFresh r.id due
        → marks turn due (r ∷ rows) ≡ r ∷ marks turn due rows
    marks-cons turn [] r rows fresh = refl
    marks-cons turn (l ∷ due) r rows fresh = elim (Bool-cases (passes turn l)) [
      | inr fails ↦ rw fails (marks-cons (suc turn) due r rows fresh.1)
      | inl passed ↦
          let ne : (r.id == l.id) ≡ false = ground (arith, fresh.0) in
          rw (passed, ne) (marks-cons (suc turn) due r (mark_sent_rows l.id now rows) fresh.1)
    ]

    pub marks-eq-reminded :
        (turn : ℕ) (rows : List BookLoan)
        → IsKeyed rows
        → marks turn (select (is_due before) rows) rows ≡ reminded turn rows
    marks-eq-reminded turn [] keyed = refl
    marks-eq-reminded turn (r ∷ rows) keyed =
        let due = select (is_due before) rows in
        let fresh = select-IsFresh r.id (is_due before) rows keyed.0 in
        let away = mark_sent_rows-IsFresh r.id now rows keyed.0 in
        elim (Bool-cases (is_due before r)) [
          | inr idle ↦
              ground
                (arith, idle, marks-cons turn due r rows fresh, marks-eq-reminded turn rows keyed.1)
          | inl now_due ↦
              let after = marks-eq-reminded (suc turn) rows keyed.1 in
              let marked : BookLoan = record r { reminder_sent_at = some now } in
              elim (Bool-cases (passes turn r)) [
                | inl passed ↦ ground (
                  arith,
                  now_due,
                  passed,
                  away,
                  marks-cons (suc turn) due marked rows fresh,
                  after,
                )
                | inr fails ↦
                    ground (arith, now_due, fails, marks-cons (suc turn) due r rows fresh, after)
              ]
        ]

    -- What is due after the run are the loans whose turn failed.
    pub select-reminded :
        (turn : ℕ) (rows : List BookLoan)
        → select (is_due before) (reminded turn rows) ≡ failed turn (select (is_due before) rows)
    select-reminded turn [] = refl
    select-reminded turn (r ∷ rows) =
        ground (arith, select-reminded turn rows, select-reminded (suc turn) rows)

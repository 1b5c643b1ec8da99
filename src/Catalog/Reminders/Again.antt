-- ===== src/Catalog/Reminders/Again.antt =====
-- Who is reminded, and who is retried.
use jinbocho_catalog_v.Base.{
  ℕ, suc, String, ◌≡◌, refl, inl, inr, Bool, List, [], ◌∷◌, arith, ◌+◌, ◌*◌, Bool-cases,
  Option-cases,
}
use jinbocho_catalog_v.Base.Table.{select}
use jinbocho_catalog_v.Domain.Activity.{BookLoan}
use jinbocho_catalog_v.Exec.{ok}
use jinbocho_catalog_v.Catalog.State.{Catalog}
use jinbocho_catalog_v.Catalog.BookRepo.{book_by_id}
use jinbocho_catalog_v.Catalog.RecordRepo.{record_by_id}
use jinbocho_catalog_v.Catalog.LoanRepo.{is_due, mark_sent_rows}
use jinbocho_catalog_v.Catalog.Reminders.{
  title_of, notified, mark_if_sent, remind_of, remind_all, send_loan_reminders,
}
use jinbocho_catalog_v.Catalog.Reminders.Turns.{
  IsKeyed, count_passed, failed, marks, reminded, marks-eq-reminded, select-reminded,
}

module _ (notify : (turn library_id : ℕ) → String → String → (due_date : ℕ) → Bool) (now : ℕ) where
  remind_all_lem :
      (turn : ℕ) (due : List BookLoan) (s : Catalog)
      → remind_all notify now turn due s ≡ (
        ok (count_passed notify now s.books s.records turn due),
        record s { loans = marks notify now s.books s.records turn due s.loans },
      )
  unfolding remind_all remind_of mark_if_sent
  remind_all_lem turn [] s = refl
  remind_all_lem turn (l ∷ due) s = elim (Option-cases (book_by_id l.owned_book_id s.books)) [
    | inl gone ↦ ground (arith, gone, remind_all_lem (suc turn) due s)
    | inr (b, there) ↦
        elim (Bool-cases (
          notified notify now turn b.library_id
            (title_of (record_by_id b.bibliographic_record_id s.records)) l l.due_date)) [
              | inl sent ↦ ground (
                arith,
                there,
                sent,
                remind_all_lem (suc turn) due
                    (record s { loans = mark_sent_rows l.id now s.loans }),
              )
              | inr fails ↦ ground (arith, there, fails, remind_all_lem (suc turn) due s)
            ]
  ]

  -- With distinct ids of loans, a run takes the loans that are due one turn after another and returns how
  -- many turns passed, those whose copy is there and whose notification went through. Exactly the rows of
  -- these are marked as reminded now, and nothing else changes. What is due after the run are the loans
  -- whose turn failed, unmarked: these, and no other, are what a further run up to the same due date takes.
  pub send_loan_reminders-again :
      (lead_days : ℕ) (s : Catalog)
      → IsKeyed s.loans
      → let before = now + lead_days * 86400 in
        let due = select (is_due before) s.loans in
        let (sent, s') = send_loan_reminders notify now lead_days s in
        (sent ≡ ok (count_passed notify now s.books s.records 0 due))
        × (s' ≡ record s { loans = reminded notify now s.books s.records before 0 s.loans })
        × (select (is_due before) s'.loans ≡ failed notify now s.books s.records 0 due)
  unfolding send_loan_reminders
  send_loan_reminders-again lead_days s keyed =
      let before = now + lead_days * 86400 in
      let run = remind_all_lem 0 (select (is_due before) s.loans) s in
      let rows = marks-eq-reminded notify now s.books s.records before 0 s.loans keyed in
      let left = select-reminded notify now s.books s.records before 0 s.loans in
      (ground (arith, run), ground (arith, run, rows), ground (arith, run, rows, left))

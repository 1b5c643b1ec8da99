-- ===== src/Catalog/Reminders.antt =====
-- app/application/use_cases/catalog/loan_reminders.py. The notifier of a run is a parameter: whether its
-- call at a turn of the loop, for a library, a title, a borrower and a due date, passes without an
-- exception. The answer may depend on the turn, and another run has another notifier.
pub mod Turns
pub mod Again
use jinbocho_catalog_v.Base.{
  ℕ, suc, String, Bool, true, false, Option, none, some, List, [], ◌∷◌, ◌+◌, ◌*◌,
}
use jinbocho_catalog_v.Domain.Record.{BibliographicRecord}
use jinbocho_catalog_v.Domain.Book.{OwnedBook}
use jinbocho_catalog_v.Domain.Activity.{BookLoan}
use jinbocho_catalog_v.Exec.{Exec, pure, ◌>>=◌, ◌>>◌}
use jinbocho_catalog_v.Catalog.State.{Catalog}
use jinbocho_catalog_v.Catalog.BookRepo
use jinbocho_catalog_v.Catalog.RecordRepo
use jinbocho_catalog_v.Catalog.LoanRepo

abbrev pub title_of : Option BibliographicRecord → String
title_of none = "Untitled"
title_of (some r) = r.title

module _ (notify : (turn library_id : ℕ) → String → String → (due_date : ℕ) → Bool) (now : ℕ) where
  -- The reminder is marked as sent only if the notifier passes.
  unfoldable pub mark_if_sent : Bool → BookLoan → Exec Catalog ℕ
  unfolding LoanRepo.mark_reminder_sent
  mark_if_sent false l = pure 0
  mark_if_sent true l = do LoanRepo.mark_reminder_sent l.id now; pure 1

  -- The assertion on the due date, whose failure is caught as any other.
  abbrev pub notified : (turn library_id : ℕ) → String → BookLoan → Option ℕ → Bool
  notified turn library_id title l none = false
  notified turn library_id title l (some due_date) =
      notify turn library_id title l.borrower_name due_date

  unfoldable pub remind_of : ℕ → Option OwnedBook → BookLoan → Exec Catalog ℕ
  unfolding RecordRepo.find_by_id mark_if_sent
  remind_of turn none l = pure 0
  remind_of turn (some book) l = do
    rec ← RecordRepo.find_by_id book.bibliographic_record_id
    mark_if_sent (notified turn book.library_id (title_of rec) l l.due_date) l

  unfoldable pub remind_all : (turn : ℕ) → List BookLoan → Exec Catalog ℕ
  unfolding BookRepo.find_by_id remind_of
  remind_all turn [] = pure 0
  remind_all turn (l ∷ loans) = do
    book ← BookRepo.find_by_id l.owned_book_id
    n ← remind_of turn book l
    m ← remind_all (suc turn) loans
    pure (n + m)

  unfoldable pub send_loan_reminders : (lead_days : ℕ) → Exec Catalog ℕ
  unfolding LoanRepo.list_due_for_reminder remind_all
  send_loan_reminders lead_days = do
    loans ← LoanRepo.list_due_for_reminder (now + lead_days * 86400)
    remind_all 0 loans

-- ===== src/Catalog/LoanRepo.antt =====
-- app/infrastructure/repositories/book_loan_repository.py, less the listings that only sort.
use jinbocho_catalog_v.Base.{
  ℕ, Bool, false, Option, none, some, List, not, ◌&&◌, ◌==◌, is_some, leb, str_eq, if◌then◌else◌,
  count_if,
}
use jinbocho_catalog_v.Base.Table
use jinbocho_catalog_v.Domain.Activity.{BookLoan}
use jinbocho_catalog_v.Catalog.State.{Catalog}
use jinbocho_catalog_v.Domain.Errors.{integrity_error, multiple_results_found}
use jinbocho_catalog_v.Exec.{Exec, pure, gets, modify, raise_if, ◌>>=◌, ◌>>◌}

-- `owned_book_id = book AND returned_at IS NULL`
abbrev pub is_active : ℕ → BookLoan → Bool
is_active book loan = loan.owned_book_id == book && not (is_some loan.returned_at)

abbrev pub due_by : ℕ → Option ℕ → Bool
due_by before none = false
due_by before (some due) = leb due before

abbrev pub is_due : ℕ → BookLoan → Bool
is_due before loan =
    not (is_some loan.returned_at)
    && (not (is_some loan.reminder_sent_at) && due_by before loan.due_date)

abbrev pub mark_returned_rows : ℕ → ℕ → List BookLoan → List BookLoan
mark_returned_rows loan_id now rows =
    Table.update_where (λ (l : BookLoan). l.id == loan_id)
      (λ l. record l { returned_at = some now }) rows

abbrev pub mark_sent_rows : ℕ → ℕ → List BookLoan → List BookLoan
mark_sent_rows loan_id now rows =
    Table.update_where (λ (l : BookLoan). l.id == loan_id)
      (λ l. record l { reminder_sent_at = some now }) rows

-- The partial unique index `uq_book_loans_active_per_book`: a loan that is not returned is refused where
-- its copy has another.
unfoldable pub insert_loan : BookLoan → Exec Catalog (Unit {0})
insert_loan row = do
  active ← gets (λ s. Table.find (is_active row.owned_book_id) s.loans)
  raise_if (is_active row.owned_book_id row && is_some active) integrity_error
  modify (λ s. record s { loans = Table.insert row s.loans })

-- `add` leaves `loaned_at` to the table's default, the present, and starts with no return and no
-- reminder.
unfoldable pub add : BookLoan → ℕ → Exec Catalog BookLoan
unfolding insert_loan
add loan now = do
  let row = record loan { loaned_at = now; returned_at = none; reminder_sent_at = none }
  insert_loan row
  pure row

unfoldable pub mark_returned : ℕ → ℕ → Exec Catalog (Unit {0})
mark_returned loan_id returned_at =
    modify (λ s. record s { loans = mark_returned_rows loan_id returned_at s.loans })

-- `scalar_one_or_none` raises if there are two rows.
unfoldable pub get_active_for_book : ℕ → Exec Catalog (Option BookLoan)
get_active_for_book book = do
  rows ← gets (λ s. count_if (is_active book) s.loans)
  raise_if (leb 2 rows) multiple_results_found
  gets (λ s. Table.find (is_active book) s.loans)

unfoldable pub list_due_for_reminder : ℕ → Exec Catalog (List BookLoan)
list_due_for_reminder due_before = gets (λ s. Table.select (is_due due_before) s.loans)

unfoldable pub mark_reminder_sent : ℕ → ℕ → Exec Catalog (Unit {0})
mark_reminder_sent loan_id sent_at =
    modify (λ s. record s { loans = mark_sent_rows loan_id sent_at s.loans })

abbrev pub is_same_loan : BookLoan → BookLoan → Bool
is_same_loan x y =
    y.owned_book_id == x.owned_book_id
    && (str_eq y.borrower_name x.borrower_name && y.loaned_at == x.loaned_at)

-- The same loan, of an earlier restore, stays as it is. The id of a restored row is new.
unfoldable pub restore : BookLoan → Exec Catalog (Unit {0})
unfolding insert_loan
restore l = do
  existing ← gets (λ s. Table.find (is_same_loan l) s.loans)
  if is_some existing then pure tt else insert_loan l

-- ===== src/Catalog/Loans.antt =====
-- app/application/use_cases/catalog/book_loans.py: lending a copy and taking it back.
pub mod Lending
use jinbocho_catalog_v.Base.{ℕ, String, Option, none, some, not, ◌==◌, is_some}
use jinbocho_catalog_v.Domain.Activity.{BookLoan}
use jinbocho_catalog_v.Domain.Errors.{lookup_error, permission_error, value_error}
use jinbocho_catalog_v.Exec.{Exec, pure, or_raise, raise_if, ◌>>=◌, ◌>>◌}
use jinbocho_catalog_v.Catalog.State.{Catalog}
use jinbocho_catalog_v.Catalog.BookRepo
use jinbocho_catalog_v.Catalog.LoanRepo

-- The loan that is added; `new_id` is its uuid4().
abbrev pub new_loan : ℕ → String → Option ℕ → Option ℕ → (new_id now : ℕ) → BookLoan
new_loan book_id borrower_name due_date borrower_user_id new_id now = record {
  id = new_id;
  owned_book_id = book_id;
  borrower_name = borrower_name;
  borrower_user_id = borrower_user_id;
  loaned_at = now;
  due_date = due_date;
  returned_at = none;
  reminder_sent_at = none;
}

unfoldable pub lend_book :
    ℕ → ℕ → String → Option ℕ → Option ℕ → (new_id now : ℕ) → Exec Catalog BookLoan
unfolding BookRepo.find_by_id LoanRepo.get_active_for_book LoanRepo.add
lend_book book_id library_id borrower_name due_date borrower_user_id new_id now = do
  found ← BookRepo.find_by_id book_id
  book ← or_raise found lookup_error
  raise_if (not (book.library_id == library_id)) permission_error
  active ← LoanRepo.get_active_for_book book_id
  raise_if (is_some active) value_error
  LoanRepo.add (new_loan book_id borrower_name due_date borrower_user_id new_id now) now

unfoldable pub return_book : ℕ → ℕ → ℕ → Exec Catalog BookLoan
unfolding BookRepo.find_by_id LoanRepo.get_active_for_book LoanRepo.mark_returned
return_book book_id library_id now = do
  found ← BookRepo.find_by_id book_id
  book ← or_raise found lookup_error
  raise_if (not (book.library_id == library_id)) permission_error
  current ← LoanRepo.get_active_for_book book_id
  active ← or_raise current lookup_error
  LoanRepo.mark_returned active.id now
  pure (record active { returned_at = some now; reminder_sent_at = none })

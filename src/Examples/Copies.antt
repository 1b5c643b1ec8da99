-- ===== src/Examples/Copies.antt =====
-- Loans, moves and deletions, on the sample rows.
use jinbocho_catalog_v.Base.{
  ℕ, String, Bool, List, ◌≡◌, refl, ◌↔◌, ◌⊎◌, arith, none, some, [], ◌∷◌, false, length, contains,
  not, ◌==◌, ◌+◌, ◌*◌,
}
use jinbocho_catalog_v.Base.Table.{find, select}
use jinbocho_catalog_v.Domain.Book.{OwnedBook, BookHistory, to_read}
use jinbocho_catalog_v.Exec.{ok}
use jinbocho_catalog_v.Catalog.State.{Catalog}
use jinbocho_catalog_v.Catalog.BookRepo.{book_by_id}
use jinbocho_catalog_v.Catalog.LoanRepo.{is_active, is_due}
use jinbocho_catalog_v.Catalog.Access.{library_in}
use jinbocho_catalog_v.Catalog.Loans.{new_loan, lend_book, return_book}
use jinbocho_catalog_v.Catalog.Loans.Lending.{IsSingle, lend_book_iff, lend-return_book}
use jinbocho_catalog_v.Catalog.Position.{
  BulkMoveBooksInput, distinct, move_book, move_books, bulk_move_books, moved,
}
use jinbocho_catalog_v.Catalog.Position.BulkMove.{bulk_move_books-rows}
use jinbocho_catalog_v.Catalog.Removal.{
  deleted_event, delete_book, record_deletions, bulk_delete_books,
}
use jinbocho_catalog_v.Catalog.Removal.Effects.{
  NoRowsOf, AreDeletions, delete_book-removes, bulk_delete_books-removes,
}
use jinbocho_catalog_v.Catalog.Reminders.{send_loan_reminders}
use jinbocho_catalog_v.Catalog.Reminders.Turns.{IsKeyed, count_passed, failed, reminded}
use jinbocho_catalog_v.Catalog.Reminders.Again.{send_loan_reminders-again}
use jinbocho_catalog_v.Examples.{catalog, copy}

loans-IsSingle : IsSingle catalog.loans
loans-IsSingle = λ book. ground arith

lend_book_iff_example :
    let (r, s') = lend_book 10 1 "Eve" none none 2 99 catalog in
    (r ≡ ok (new_loan 10 "Eve" none none 2 99))
    ↔ ((library_in catalog 10 ≡ some 1) × (find (is_active 10) catalog.loans ≡ none))
lend_book_iff_example = lend_book_iff 10 1 "Eve" none none 2 99 catalog

lend-return_book_example :
    (lend_book 11 1 "Eve" none none 2 100 (return_book 11 1 99 catalog).1).0
    ≡ ok (new_loan 11 "Eve" none none 2 100)
unfolding return_book
lend-return_book_example =
    lend-return_book 11 1 99 catalog "Eve" none none 2 100 loans-IsSingle refl

-- The copies 10 and 11 go to the shelf 4; one id is named twice.
abbrev to_shelf : BulkMoveBooksInput
to_shelf = record {
  book_ids = 10 ∷ 11 ∷ 10 ∷ [];
  library_id = 1;
  changed_by = 5;
  room_id = some 1;
  bookcase_id = some 2;
  section_id = some 3;
  shelf_id = some 4;
  shelf_position = none;
}

bulk_move_books-rows_example :
    book_by_id 10 (bulk_move_books to_shelf 99 catalog).1.books
    ≡ some (moved to_shelf 99 (copy 10 1 none to_read))
unfolding bulk_move_books move_books move_book
bulk_move_books-rows_example = (bulk_move_books-rows to_shelf 99 catalog 10 refl).1

-- A copy that is not there stops the whole move.
abbrev to_nowhere : BulkMoveBooksInput
to_nowhere = record to_shelf { book_ids = 10 ∷ 77 ∷ [] }

delete_book-removes_example :
    let s' = (delete_book 11 1 5 99 catalog).1 in
    (book_by_id 11 s'.books ≡ none)
    × NoRowsOf 11 s'
    × ((book : OwnedBook) × (book_by_id 11 catalog.books ≡ some book)
        × (s'.history ≡ deleted_event 5 99 book ∷ []))
unfolding delete_book
delete_book-removes_example = delete_book-removes 11 1 5 99 catalog 11 refl

bulk_delete_books-removes_example :
    let s' = (bulk_delete_books (10 ∷ 11 ∷ 10 ∷ []) 1 5 99 catalog).1 in
    (◌≡◌ {A = ℕ} 2 (length (distinct (10 ∷ 11 ∷ 10 ∷ []))))
    × ((events : List BookHistory) × (s'.history ≡ events)
        × AreDeletions 5 99 catalog.books (10 ∷ 11 ∷ []) events)
    × (book_by_id 10 s'.books ≡ none)
    × ((contains 10 (10 ∷ 11 ∷ 10 ∷ []) ≡ false) ⊎ NoRowsOf 10 s')
unfolding bulk_delete_books record_deletions
bulk_delete_books-removes_example =
    bulk_delete_books-removes (10 ∷ 11 ∷ 10 ∷ []) 1 5 99 catalog 10 refl

-- The first notification of a run fails, and the others pass.
abbrev fails_first : (turn library_id : ℕ) → String → String → (due_date : ℕ) → Bool
fails_first turn library_id title borrower due_date = not (turn == 0)

-- Copy 10 is lent too, and both loans are due.
abbrev two_loans : Catalog
two_loans = record catalog { loans = new_loan 10 "Eve" (some 5) none 7 1 ∷ catalog.loans }

loans-IsKeyed : IsKeyed two_loans.loans
loans-IsKeyed = ground arith

send_loan_reminders-again_example :
    let before = 10 + 1 * 86400 in
    let due = select (is_due before) two_loans.loans in
    let (sent, s') = send_loan_reminders fails_first 10 1 two_loans in
    (sent ≡ ok (count_passed fails_first 10 catalog.books catalog.records 0 due))
    × (s' ≡ record two_loans {
      loans = reminded fails_first 10 catalog.books catalog.records before 0 two_loans.loans;
    })
    × (select (is_due before) s'.loans ≡ failed fails_first 10 catalog.books catalog.records 0 due)
send_loan_reminders-again_example =
    send_loan_reminders-again fails_first 10 1 two_loans loans-IsKeyed

-- The borrower of copy 10 is not reminded, and that loan alone is due again.
one_reminded : (send_loan_reminders fails_first 10 1 two_loans).0 ≡ ok 1
unfolding send_loan_reminders
one_reminded = refl

one_due_again :
    select (is_due 86410) (send_loan_reminders fails_first 10 1 two_loans).1.loans
    ≡ new_loan 10 "Eve" (some 5) none 7 1 ∷ []
unfolding send_loan_reminders
one_due_again = refl

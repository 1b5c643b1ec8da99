-- ===== src/Catalog/Loans/Lending.antt =====
-- A copy is lent to one borrower at a time.
use jinbocho_catalog_v.Base.{
  ℕ, ◌≡◌, inl, inr, ◌≤◌, String, Option, none, some, List, [], ◌∷◌, arith, Option-cases, count_if,
  suc, ◌↔◌,
}
use jinbocho_catalog_v.Base.Table.{
  find, find-none_of_count, count_if-eq-zero_of_find, count_if-insert, find-insert, insert,
}
use jinbocho_catalog_v.Domain.Activity.{BookLoan}
use jinbocho_catalog_v.Domain.Errors.{value_error}
use jinbocho_catalog_v.Exec.{ok, err}
use jinbocho_catalog_v.Catalog.State.{Catalog}
use jinbocho_catalog_v.Catalog.LoanRepo.{is_active, mark_returned_rows}
use jinbocho_catalog_v.Catalog.Access.{library_in}
use jinbocho_catalog_v.Catalog.Loans.{new_loan, lend_book, return_book}

-- No copy has two loans that are not returned.
abbrev pub IsSingle : List BookLoan → Type 0
IsSingle loans = (book : ℕ) → count_if (is_active book) loans ≤ 1

-- Returning a loan makes no loan active.
count-mark_returned :
    (book k now : ℕ) (loans : List BookLoan)
    → count_if (is_active book) (mark_returned_rows k now loans) ≤ count_if (is_active book) loans
count-mark_returned book k now [] = omega arith
count-mark_returned book k now (l ∷ loans) = ground (arith, count-mark_returned book k now loans)

-- Returning the active loan that is found takes one from the active loans of the copy.
count-mark_returned_found :
    (book now : ℕ) (loans : List BookLoan) (l : BookLoan)
    → find (is_active book) loans ≡ some l
    → suc (count_if (is_active book) (mark_returned_rows l.id now loans))
      ≤ count_if (is_active book) loans
count-mark_returned_found book now [] l h = cc
count-mark_returned_found book now (x ∷ loans) l h =
    ground
      (arith, count-mark_returned_found book now loans l, count-mark_returned book l.id now loans)

module _ (book lib : ℕ) (name : String) (due user : Option ℕ) (id now : ℕ) (s : Catalog) where
  -- Lending, whether it returns or raises, keeps every copy at one active loan at most.
  pub lend_book-IsSingle :
      IsSingle s.loans → IsSingle (lend_book book lib name due user id now s).1.loans
  unfolding lend_book
  lend_book-IsSingle h c = ground (
    arith,
    h c,
    count_if-insert (is_active c) (new_loan book name due user id now) s.loans,
    count_if-eq-zero_of_find (is_active book) s.loans,
  )

  -- Lending returns the new loan exactly if the copy is of the caller's library and has no active
  -- loan.
  pub lend_book_iff :
      let (r, s') = lend_book book lib name due user id now s in
      (r ≡ ok (new_loan book name due user id now))
      ↔ ((library_in s book ≡ some lib) × (find (is_active book) s.loans ≡ none))
  unfolding lend_book
  lend_book_iff = (
    λ h. (ground arith, ground arith),
    λ h. ground (arith, count_if-eq-zero_of_find (is_active book) s.loans),
  )

  -- After a loan that returns, lending the copy again raises a value error, whoever asks from the
  -- library and whenever, and writes nothing.
  pub lend_book-again :
      {l : BookLoan} (name' : String) (due' user' : Option ℕ) (id' now' : ℕ)
      → (lend_book book lib name due user id now s).0 ≡ ok l
      → let s' = (lend_book book lib name due user id now s).1 in
        lend_book book lib name' due' user' id' now' s' ≡ (err value_error, s')
  unfolding lend_book
  lend_book-again name' due' user' id' now' h =
      let new = new_loan book name due user id now in
      let free : find (is_active book) s.loans ≡ none = ground arith in
      let own : library_in s book ≡ some lib = ground arith in
      let wrote : (lend_book book lib name due user id now s).1
          ≡ record s { loans = insert new s.loans } =
        ground arith in
      rw wrote (
        ground (
          arith,
          free,
          own,
          find-insert (is_active book) new s.loans,
          count_if-insert (is_active book) new s.loans,
          count_if-eq-zero_of_find (is_active book) s.loans free,
        ))

module _ (book lib now : ℕ) (s : Catalog) where
  -- Taking back, whether it returns or raises, keeps every copy at one active loan at most.
  pub return_book-IsSingle : IsSingle s.loans → IsSingle (return_book book lib now s).1.loans
  unfolding return_book
  return_book-IsSingle h c = elim (Option-cases (find (is_active book) s.loans)) [
    | inl free ↦ ground (arith, h c)
    | inr (l, out) ↦ ground (arith, h c, count-mark_returned c l.id now s.loans)
  ]

  -- If no copy has two active loans, a copy that was taken back can be lent again by the library, to
  -- anyone and at any time.
  pub lend-return_book :
      {l : BookLoan} (name : String) (due user : Option ℕ) (id now' : ℕ)
      → IsSingle s.loans
      → (return_book book lib now s).0 ≡ ok l
      → (lend_book book lib name due user id now' (return_book book lib now s).1).0
        ≡ ok (new_loan book name due user id now')
  unfolding return_book lend_book
  lend-return_book name due user id now' h r = elim (Option-cases (find (is_active book) s.loans)) [
    | inl free ↦ ground arith
    | inr (l, out) ↦ ground (
      arith,
      h book,
      count-mark_returned_found book now s.loans l out,
      find-none_of_count (is_active book) (mark_returned_rows l.id now s.loans),
    )
  ]

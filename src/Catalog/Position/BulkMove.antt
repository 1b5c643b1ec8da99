-- ===== src/Catalog/Position/BulkMove.antt =====
-- A bulk move is checked as a whole before anything is written, and then moves every copy asked for.
use jinbocho_catalog_v.Base.{
  ℕ, ◌≡◌, refl, inl, inr, false, Option, none, some, List, [], ◌∷◌, arith, not, ◌&&◌, ◌==◌,
  contains, length, if◌then◌else◌, Option-cases, Bool-cases,
}
use jinbocho_catalog_v.Base.Table
use jinbocho_catalog_v.Base.Table.{select}
use jinbocho_catalog_v.Domain.Book.{OwnedBook}
use jinbocho_catalog_v.Domain.Errors.{Error}
use jinbocho_catalog_v.Exec.{ok, err}
use jinbocho_catalog_v.Catalog.State.{Catalog}
use jinbocho_catalog_v.Catalog.BookRepo.{book_by_id, save_rows}
use jinbocho_catalog_v.Catalog.Rows.{book_by_id-save, book_by_id-id}
use jinbocho_catalog_v.Catalog.Position.{
  BulkMoveBooksInput, moved, without, distinct, any_missing, move_book, move_books, bulk_move_books,
}

contains-without :
    (k a : ℕ) (xs : List ℕ) → contains k (without a xs) ≡ (not (k == a) && contains k xs)
contains-without k a [] = ground arith
contains-without k a (x ∷ xs) = ground (arith, contains-without k a xs)

pub contains-distinct : (k : ℕ) (xs : List ℕ) → contains k (distinct xs) ≡ contains k xs
contains-distinct k [] = refl
contains-distinct k (x ∷ xs) =
    ground (arith, contains-without k x (distinct xs), contains-distinct k xs)

-- The copies that a query by ids finds.
abbrev pub fetched_by : List ℕ → List OwnedBook → List OwnedBook
fetched_by ids books = select (λ (b : OwnedBook). contains b.id ids) books

pub book_by_id-fetched_by :
    (k : ℕ) (ids : List ℕ) (books : List OwnedBook)
    → book_by_id k (fetched_by ids books) ≡ (if contains k ids then book_by_id k books else none)
book_by_id-fetched_by k ids books = Table.get-select_ids (λ (b : OwnedBook). b.id) k ids books

-- A row stands for the entity that was fetched: what a save does not assign is the same.
abbrev StandsFor : Option OwnedBook → Option OwnedBook → Type 0
StandsFor none row = Unit
StandsFor (some b) none = ⊥
StandsFor (some b) (some r) =
    (r.id ≡ b.id) × (r.library_id ≡ b.library_id) × (r.created_at ≡ b.created_at)

module _ (inp : BulkMoveBooksInput) (now : ℕ) (fetched : List OwnedBook) where
  move_book-books :
      (b : OwnedBook) (s : Catalog)
      → ((move_book inp now b s).0 ≡ ok tt)
        × ((move_book inp now b s).1.books ≡ save_rows (moved inp now b) s.books)
  unfolding move_book
  move_book-books b s = (refl, refl)

  -- The row of a copy after the loop over `ks`.
  abbrev row_after : List ℕ → Catalog → ℕ → Option OwnedBook
  row_after ks s j =
      if contains j ks
      then elim (book_by_id j fetched) [ none ↦ none | some b ↦ some (moved inp now b) ]
      else book_by_id j s.books

  move_books-rows :
      (ks : List ℕ) (s : Catalog) (j : ℕ)
      → any_missing fetched ks ≡ false
      → ((i : ℕ) → StandsFor (book_by_id i fetched) (book_by_id i s.books))
      → ((move_books inp now fetched ks s).0 ≡ ok tt)
        × (book_by_id j (move_books inp now fetched ks s).1.books ≡ row_after ks s j)
  unfolding move_books
  move_books-rows [] s j there stands = (refl, refl)
  move_books-rows (k ∷ ks) s j there stands = elim (Option-cases (book_by_id k fetched)) [
    | inl gone ↦ ground arith
    | inr (b, found) ↦
        let s' = (move_book inp now b s).1 in
        let key = book_by_id-id k fetched b found in
        ground (
          arith,
          move_book-books b s,
          book_by_id-save (moved inp now b) s.books j,
          stands j,
          stands k,
          move_books-rows ks s' j (ground arith) (λ i. ground (
            arith,
            move_book-books b s,
            stands i,
            stands k,
            book_by_id-save (moved inp now b) s.books i,
          )),
        )
  ]

StandsFor-self : (row : Option OwnedBook) → StandsFor row row
StandsFor-self none = tt
StandsFor-self (some b) = (refl, refl, refl)

StandsFor-fetched :
    (ids : List ℕ) (books : List OwnedBook) (i : ℕ)
    → StandsFor (book_by_id i (fetched_by ids books)) (book_by_id i books)
StandsFor-fetched ids books i = rw book_by_id-fetched_by (elim (Bool-cases (contains i ids)) [
  | inl asked ↦ rw asked (StandsFor-self (book_by_id i books))
  | inr other ↦ rw other tt
])

module _ (inp : BulkMoveBooksInput) (now : ℕ) (s : Catalog) where
  abbrev requested_books : List OwnedBook
  requested_books = fetched_by (distinct inp.book_ids) s.books

  loop_rows :
      (j : ℕ)
      → any_missing requested_books (distinct inp.book_ids) ≡ false
      → ((move_books inp now requested_books (distinct inp.book_ids) s).0 ≡ ok tt)
        × (book_by_id j (move_books inp now requested_books (distinct inp.book_ids) s).1.books
            ≡ row_after inp now requested_books (distinct inp.book_ids) s j)
  loop_rows j there =
      move_books-rows inp now requested_books (distinct inp.book_ids) s j there
        (StandsFor-fetched (distinct inp.book_ids) s.books)

  -- A bulk move that returns gives the number of distinct copies asked for; each of these has the
  -- new place and is otherwise as it was, and every other copy is untouched.
  pub bulk_move_books-rows :
      {n : ℕ} (j : ℕ)
      → (bulk_move_books inp now s).0 ≡ ok n
      → (n ≡ length (distinct inp.book_ids))
        × (book_by_id j (bulk_move_books inp now s).1.books ≡ (
            if contains j inp.book_ids
            then elim (book_by_id j s.books) [ none ↦ none | some b ↦ some (moved inp now b) ]
            else book_by_id j s.books))
  unfolding bulk_move_books
  bulk_move_books-rows j h = ground (
    arith,
    loop_rows j,
    contains-distinct j inp.book_ids,
    book_by_id-fetched_by j (distinct inp.book_ids) s.books,
  )

  -- A bulk move that raises has written nothing: no copy is moved unless all can be.
  pub bulk_move_books-atomic :
      {e : Error} → (bulk_move_books inp now s).0 ≡ err e → (bulk_move_books inp now s).1 ≡ s
  unfolding bulk_move_books
  bulk_move_books-atomic h = ground (arith, loop_rows 0)

-- ===== src/Catalog/Removal/Effects.antt =====
-- What deleting copies removes, keeps and records.
use jinbocho_catalog_v.Base.{
  ℕ, ◌≡◌, refl, ◌⊎◌, inl, inr, Bool, true, false, none, some, List, [], ◌∷◌, ◌++◌, arith, ◌==◌,
  contains, length, count_if, ◌∙◌, if◌then◌else◌, Option-cases, Bool-cases, ap,
}
use mathlib.Core.List.{append_assoc, append-nil}
use jinbocho_catalog_v.Base.Table
use jinbocho_catalog_v.Domain.Book.{OwnedBook, HistoryData, BookHistory, BookEventType}
use jinbocho_catalog_v.Domain.Activity.{BookRead, BookAbandonment, BookLoan, BookRating}
use jinbocho_catalog_v.Domain.Errors.{Error}
use jinbocho_catalog_v.Exec.{ok, err}
use jinbocho_catalog_v.Catalog.State.{Catalog}
use jinbocho_catalog_v.Catalog.BookRepo.{book_by_id, without_books}
use jinbocho_catalog_v.Catalog.Rows.{book_by_id-delete_where, book_by_id-id}
use jinbocho_catalog_v.Catalog.Access.{library_in, Guarded}
use jinbocho_catalog_v.Catalog.Position.{distinct, any_missing}
use jinbocho_catalog_v.Catalog.Position.BulkMove.{
  contains-distinct, fetched_by, book_by_id-fetched_by,
}
use jinbocho_catalog_v.Catalog.Removal.{
  deleted_event, delete_book, record_deletions, bulk_delete_books,
}

-- No row of a table on copies is about the copy `k`.
abbrev pub NoRowsOf : ℕ → Catalog → Type 0
NoRowsOf k s =
    (count_if (λ (r : BookRead). r.owned_book_id == k) s.reads ≡ 0)
    × (count_if (λ (a : BookAbandonment). a.owned_book_id == k) s.abandonments ≡ 0)
    × (count_if (λ (l : BookLoan). l.owned_book_id == k) s.loans ≡ 0)
    × (count_if (λ (r : BookRating). r.owned_book_id == k) s.ratings ≡ 0)

count-gone :
    {Row : Type 0} (book : Row → ℕ) (gone : ℕ → Bool) (k : ℕ) (rows : List Row)
    → gone k ≡ true
    → count_if (λ r. book r == k) (Table.delete_where (λ r. gone (book r)) rows) ≡ 0
count-gone book gone k [] h = refl
count-gone book gone k (r ∷ rows) h = elim (Bool-cases (book r == k)) [
  | inl e ↦
      let same : book r ≡ k = ground arith in
      ground (arith, count-gone book gone k rows h, ap gone same)
  | inr e ↦ ground (arith, count-gone book gone k rows h)
]

without_books-NoRowsOf :
    (gone : ℕ → Bool) (k : ℕ) (s : Catalog) → gone k ≡ true → NoRowsOf k (without_books gone s)
without_books-NoRowsOf gone k s h = (
  count-gone (λ (r : BookRead). r.owned_book_id) gone k s.reads h,
  count-gone (λ (a : BookAbandonment). a.owned_book_id) gone k s.abandonments h,
  count-gone (λ (l : BookLoan). l.owned_book_id) gone k s.loans h,
  count-gone (λ (r : BookRating). r.owned_book_id) gone k s.ratings h,
)

module _ (book_id lib user now : ℕ) (s : Catalog) where
  -- Deleting a copy raises a lookup error if it is not there and a permission error if it is
  -- another library's, both with nothing written, and returns otherwise.
  pub delete_book-Guarded :
      Guarded (library_in s book_id) lib s (delete_book book_id lib user now s)
  unfolding delete_book
  delete_book-Guarded = elim (Option-cases (book_by_id book_id s.books)) [
    | inl gone ↦ inl (rw gone, ground arith)
    | inr (book, found) ↦ elim (Bool-cases (book.library_id == lib)) [
      | inl own ↦ inr (inr (ground arith, (tt, ground arith)))
      | inr other ↦ inr (inl (book.library_id, rw found, ground arith, ground arith))
    ]
  ]

  -- A deletion that returns removes the copy and every read, abandonment, loan and rating of it, keeps
  -- every other copy, and records the copy's bibliographic record in the history.
  pub delete_book-removes :
      (k : ℕ)
      → (delete_book book_id lib user now s).0 ≡ ok tt
      → let s' = (delete_book book_id lib user now s).1 in
        (book_by_id k s'.books ≡ (if k == book_id then none else book_by_id k s.books))
        × NoRowsOf book_id s'
        × ((book : OwnedBook) × (book_by_id book_id s.books ≡ some book)
            × (s'.history ≡ s.history ++ (deleted_event user now book ∷ [])))
  unfolding delete_book
  delete_book-removes k h = elim (Option-cases (book_by_id book_id s.books)) [
    | inl gone ↦ ground arith
    | inr (book, found) ↦
        let key = book_by_id-id book_id s.books book found in
        let bye = λ (i : ℕ). i == book.id in
        (
          ground (arith, key, book_by_id-delete_where bye s.books k),
          ground (arith, key, without_books-NoRowsOf bye book_id s),
          (book, found, ground (arith, key)),
        )
  ]

module _ (user now : ℕ) where
  -- The event says that the member deleted the copy `k`, and which record it was of.
  pub record IsDeletion (books : List OwnedBook) (k : ℕ) (event : BookHistory) : Type 0 where
    pub book : OwnedBook
    pub there : book_by_id k books ≡ some book
    pub of_copy : event.owned_book_id ≡ k
    pub of_deletion : event.event_type ≡ BookEventType.deleted
    pub by_user : event.changed_by ≡ user
    pub of_record : event.old_data ≡ HistoryData.record_id book.bibliographic_record_id
    pub nothing_new : event.new_data ≡ HistoryData.no_data
    pub at_now : event.created_at ≡ now

  -- One such event for each of the copies, in their order, and no other.
  abbrev pub AreDeletions : List OwnedBook → List ℕ → List BookHistory → Type 0
  AreDeletions books [] [] = Unit
  AreDeletions books (k ∷ ks) (event ∷ events) =
      IsDeletion books k event × AreDeletions books ks events
  AreDeletions books [] (event ∷ events) = ⊥
  AreDeletions books (k ∷ ks) [] = ⊥

  deleted_event-IsDeletion :
      (books : List OwnedBook) (k : ℕ) (b : OwnedBook)
      → book_by_id k books ≡ some b
      → IsDeletion books k (deleted_event user now b)
  deleted_event-IsDeletion books k b found = record {
    book = b;
    there = found;
    of_copy = book_by_id-id k books b found;
    of_deletion = refl;
    by_user = refl;
    of_record = refl;
    nothing_new = refl;
    at_now = refl;
  }

  -- What the loop fetched is what the table has.
  module _ (ids : List ℕ) (books : List OwnedBook) where
    record_deletions_lem :
        (ks : List ℕ) (s : Catalog)
        → any_missing (fetched_by ids books) ks ≡ false
        → (events : List BookHistory) × (record_deletions user now (fetched_by ids books) ks s
            ≡ (ok tt, record s { history = s.history ++ events }))
          × AreDeletions books ks events
    unfolding record_deletions
    record_deletions_lem [] s there = ([], ground (arith, append-nil s.history), tt)
    record_deletions_lem (k ∷ ks) s there =
        elim (Option-cases (book_by_id k (fetched_by ids books))) [
          | inl gone ↦ absurd (ground arith)
          | inr (b, found) ↦
              let event = deleted_event user now b in
              let (events, e, log) =
                record_deletions_lem ks (record s { history = s.history ++ (event ∷ []) })
                  (ground arith) in
              let in_table : book_by_id k books ≡ some b =
                ground (arith, book_by_id-fetched_by k ids books) in
              (
                event ∷ events,
                ground (arith, append_assoc s.history (event ∷ []) events),
                (deleted_event-IsDeletion books k b in_table, log),
              )
        ]

module _ (ids : List ℕ) (lib user now : ℕ) (s : Catalog) where
  abbrev fetched_books : List OwnedBook
  fetched_books = fetched_by (distinct ids) s.books

  -- A bulk deletion that returns gives the number of distinct copies asked for. It adds to the history,
  -- after the events that were there, one event for each of them, in their order: that the member deleted
  -- this copy, now, with the record that it was of. Exactly these copies are gone, with every read,
  -- abandonment, loan and rating of them.
  pub bulk_delete_books-removes :
      {n : ℕ} (k : ℕ)
      → (bulk_delete_books ids lib user now s).0 ≡ ok n
      → let s' = (bulk_delete_books ids lib user now s).1 in
        (n ≡ length (distinct ids))
        × ((events : List BookHistory) × (s'.history ≡ s.history ++ events)
            × AreDeletions user now s.books (distinct ids) events)
        × (book_by_id k s'.books ≡ (if contains k ids then none else book_by_id k s.books))
        × ((contains k ids ≡ false) ⊎ NoRowsOf k s')
  unfolding bulk_delete_books
  bulk_delete_books-removes k h = elim (Bool-cases (any_missing fetched_books (distinct ids))) [
    | inl missing ↦ absurd (ground arith)
    | inr there ↦
        let gone = λ (i : ℕ). contains i (distinct ids) in
        let (events, e, log) =
          record_deletions_lem user now (distinct ids) s.books (distinct ids) s there in
        (
          ground arith,
          (events, ground arith, log),
          ground (arith, book_by_id-delete_where gone s.books k, contains-distinct k ids),
          elim (Bool-cases (contains k ids)) [
            | inl asked ↦
                inr (
                  ground (arith, without_books-NoRowsOf gone k s (contains-distinct k ids ∙ asked)))
            | inr kept ↦ inl kept
          ],
        )
  ]

  -- A bulk deletion that raises has written nothing.
  pub bulk_delete_books-atomic :
      {e : Error}
      → (bulk_delete_books ids lib user now s).0 ≡ err e
      → (bulk_delete_books ids lib user now s).1 ≡ s
  unfolding bulk_delete_books
  bulk_delete_books-atomic h = elim (Bool-cases (any_missing fetched_books (distinct ids))) [
    | inl missing ↦ ground arith
    | inr there ↦
        let (events, e, log) =
          record_deletions_lem user now (distinct ids) s.books (distinct ids) s there in
        ground arith
  ]

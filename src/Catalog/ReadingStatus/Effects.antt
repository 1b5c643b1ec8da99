-- ===== src/Catalog/ReadingStatus/Effects.antt =====
-- What a change of the reading status does, to the caller's view and to everything else.
use jinbocho_catalog_v.Base.{
  ℕ, ◌≡◌, ◌⊎◌, Option, none, some, inl, inr, arith, ◌==◌, Option-cases, Bool-cases, ap, ◌++◌, [],
  ◌∷◌,
}
use jinbocho_catalog_v.Domain.Book.{
  ReadingStatus, OwnedBook, BookHistory, BookEventType, HistoryData, reading_status_for,
}
use jinbocho_catalog_v.Exec.{ok}
use jinbocho_catalog_v.Catalog.State.{Catalog}
use jinbocho_catalog_v.Base.Table.{insert}
use jinbocho_catalog_v.Catalog.BookRepo.{book_by_id, save_rows}
use jinbocho_catalog_v.Catalog.ReadRepo.{has_read}
use jinbocho_catalog_v.Catalog.AbandonmentRepo.{has_abandoned}
use jinbocho_catalog_v.Catalog.Access.{library_in, Guarded}
use jinbocho_catalog_v.Catalog.Rows.{book_by_id-save, book_by_id-id}
use jinbocho_catalog_v.Catalog.ReadingStatus.{
  UpdateReadingStatusInput, reader_after, stored_status, mark, update_reading_status,
}
use jinbocho_catalog_v.Catalog.ReadingStatus.Marks.{
  view_after, mark_view, mark_books, mark_history, mark_returns,
}

-- The reading status of a copy as one member sees it.
abbrev pub status_in : Catalog → ℕ → ℕ → Option ReadingStatus
status_in s book user = elim (book_by_id book s.books) [
  | none ↦ none
  | some b ↦
      some
        (reading_status_for b (has_read book user s.reads) (has_abandoned book user s.abandonments))
]

-- The reader of a copy, if there is such a copy.
abbrev pub reader_in : Catalog → ℕ → Option ℕ
reader_in s book = elim (book_by_id book s.books) [ none ↦ none | some b ↦ b.current_reader_id ]

-- The copy as the change stores it.
abbrev pub stored : UpdateReadingStatusInput → ℕ → OwnedBook → OwnedBook
stored inp now book =
    let reader = reader_after inp.reading_status book.current_reader_id inp.changed_by in
    record book {
      current_reader_id = reader;
      reading_status = stored_status reader;
      updated_at = now;
    }

-- The row of the history that the change adds.
abbrev pub status_event : UpdateReadingStatusInput → ℕ → ReadingStatus → ReadingStatus → BookHistory
status_event inp now old new = record {
  owned_book_id = inp.book_id;
  event_type = BookEventType.reading_status_changed;
  changed_by = inp.changed_by;
  old_data = HistoryData.status old;
  new_data = HistoryData.status new;
  created_at = now;
}

module _ (inp : UpdateReadingStatusInput) (now : ℕ) (s : Catalog) (book : OwnedBook) where
  abbrev pub marked : Catalog
  marked = (mark inp.reading_status inp.book_id inp.changed_by now s).1

  -- The state after a change that passes the guards.
  abbrev pub after : Catalog
  after = record marked {
    books = save_rows (stored inp now book) s.books;
    history =
        insert
          (status_event inp now
            (reading_status_for book (has_read inp.book_id inp.changed_by s.reads)
              (has_abandoned inp.book_id inp.changed_by s.abandonments))
            (view_after inp.reading_status book.current_reader_id inp.changed_by))
          marked.history;
  }

  pub update_run :
      book_by_id inp.book_id s.books ≡ some book
      → book.id ≡ inp.book_id
      → book.library_id ≡ inp.library_id
      → update_reading_status inp now s ≡ (
        ok (record (stored inp now book) {
          reading_status = view_after inp.reading_status book.current_reader_id inp.changed_by;
        }),
        after,
      )
  unfolding update_reading_status
  update_run found key lib = ground (
    arith,
    mark_returns inp.book_id inp.changed_by now s inp.reading_status,
    mark_books inp.book_id inp.changed_by now s inp.reading_status,
    mark_view inp.book_id inp.changed_by now s inp.reading_status book.current_reader_id,
  )

module _ (inp : UpdateReadingStatusInput) (now : ℕ) (s : Catalog) where
  -- A change that returns found the copy, in the caller's library.
  pub update_reading_status-found :
      {b' : OwnedBook}
      → (update_reading_status inp now s).0 ≡ ok b'
      → (book : OwnedBook) × (book_by_id inp.book_id s.books ≡ some book)
        × (book.id ≡ inp.book_id)
        × (book.library_id ≡ inp.library_id)
  unfolding update_reading_status
  update_reading_status-found h = elim (Option-cases (book_by_id inp.book_id s.books)) [
    | inl gone ↦ ground arith
    | inr (book, found) ↦ (book, found, book_by_id-id _ s.books book found, ground arith)
  ]

  -- The change raises a lookup error for a copy that is not there and a permission error for a copy
  -- of another library, both with every table as it was, and returns for a copy of the caller's.
  pub update_reading_status-Guarded :
      Guarded (library_in s inp.book_id) inp.library_id s (update_reading_status inp now s)
  unfolding update_reading_status
  update_reading_status-Guarded = elim (Option-cases (book_by_id inp.book_id s.books)) [
    | inl gone ↦ inl (rw gone, ground arith)
    | inr (book, found) ↦ elim (Bool-cases (book.library_id == inp.library_id)) [
      | inl own ↦ inr (
          inr (
            ground arith,
            (
              record (stored inp now book) {
                reading_status =
                    view_after inp.reading_status book.current_reader_id inp.changed_by;
              },
              ap (λ out. out.0)
                  (update_run inp now s book found (book_by_id-id _ s.books book found)
                    (ground arith)),
            ),
          ))
      | inr other ↦ inr (inl (book.library_id, rw found, ground arith, ground arith))
    ]
  ]

  -- Either the change wrote nothing, or it found the copy and wrote `after`.
  pub update_reading_status-state :
      ((update_reading_status inp now s).1 ≡ s)
      ⊎ ((book : OwnedBook) × (book_by_id inp.book_id s.books ≡ some book)
          × (book.id ≡ inp.book_id)
          × ((update_reading_status inp now s).1 ≡ after inp now s book))
  update_reading_status-state = elim update_reading_status-Guarded [
    | inl (gone, out) ↦ inl (ap (λ o. o.1) out)
    | inr (inl (l, e, ne, out)) ↦ inl (ap (λ o. o.1) out)
    | inr (inr (own, (a, out))) ↦
        let (book, found, key, lib) = update_reading_status-found out in
        inr (book, found, key, ap (λ o. o.1) (update_run inp now s book found key lib))
  ]

  -- If the change returns, the caller sees the status asked for, or "reading" where another
  -- member still holds the copy; and the returned copy carries that status.
  pub update_reading_status-view :
      {b' : OwnedBook}
      → (update_reading_status inp now s).0 ≡ ok b'
      → let seen = view_after inp.reading_status (reader_in s inp.book_id) inp.changed_by in
        (status_in (update_reading_status inp now s).1 inp.book_id inp.changed_by ≡ some seen)
        × (b'.reading_status ≡ seen)
  update_reading_status-view h =
      let (book, found, key, lib) = update_reading_status-found h in
      ground (
        arith,
        update_run inp now s book found key lib,
        book_by_id-save (stored inp now book) s.books inp.book_id,
        mark_view inp.book_id inp.changed_by now s inp.reading_status book.current_reader_id,
      )

  -- If the change returns, the history gains one event for the copy, with the caller's status
  -- before and after it.
  pub update_reading_status-history :
      {b' : OwnedBook}
      → (update_reading_status inp now s).0 ≡ ok b'
      → (old : ReadingStatus) × (status_in s inp.book_id inp.changed_by ≡ some old)
        × ((update_reading_status inp now s).1.history
            ≡ s.history ++ (status_event inp now old b'.reading_status ∷ []))
  update_reading_status-history h =
      let (book, found, key, lib) = update_reading_status-found h in
      (
        reading_status_for book (has_read inp.book_id inp.changed_by s.reads)
            (has_abandoned inp.book_id inp.changed_by s.abandonments),
        ground (arith, found),
        ground (
          arith,
          update_run inp now s book found key lib,
          mark_history inp.book_id inp.changed_by now s inp.reading_status,
        ),
      )

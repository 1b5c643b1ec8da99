-- ===== src/Catalog/Metadata/Effects.antt =====
-- What an update of the metadata does to the reading state of a copy.
use jinbocho_catalog_v.Base.{
  ℕ, ◌≡◌, refl, Option, none, some, inl, inr, arith, ◌==◌, Option-cases, Bool-cases, ap, ◌++◌, [],
  ◌∷◌, if◌then◌else◌,
}
use jinbocho_catalog_v.Domain.Book.{
  ReadingStatus, OwnedBook, BookHistory, BookEventType, HistoryData,
}
use jinbocho_catalog_v.Exec.{ok}
use jinbocho_catalog_v.Catalog.State.{Catalog}
use jinbocho_catalog_v.Base.Table.{insert, find-All}
use jinbocho_catalog_v.Catalog.BookRepo.{book_by_id, save_rows}
use jinbocho_catalog_v.Catalog.Rows.{book_by_id-save, book_by_id-id}
use jinbocho_catalog_v.Catalog.Invariant.{IsConsistent, save_rows-IsInStep, IsInStep}
use jinbocho_catalog_v.Catalog.ReadingStatus.{UpdateReadingStatusInput, mark, update_reading_status}
use jinbocho_catalog_v.Catalog.ReadingStatus.Marks.{
  view_after, mark_view, mark_books, mark_history, mark_returns,
}
use jinbocho_catalog_v.Catalog.ReadingStatus.Keeps.{mark-IsExclusive}
use jinbocho_catalog_v.Catalog.ReadingStatus.Effects as Status
use jinbocho_catalog_v.Catalog.ReadingStatus.Effects.{status_in, reader_in, update_run}
use jinbocho_catalog_v.Catalog.Metadata.{
  UpdateBookMetadataInput, with_status, described, mark_given, update_book_metadata,
}

-- The event that an update adds to the history.
abbrev pub metadata_event : UpdateBookMetadataInput → ℕ → BookHistory
metadata_event inp now = record {
  owned_book_id = inp.book_id;
  event_type = BookEventType.metadata_updated;
  changed_by = inp.changed_by;
  old_data = HistoryData.no_data;
  new_data = HistoryData.no_data;
  created_at = now;
}

-- The same change, as the other use case is asked for it.
abbrev pub status_input : UpdateBookMetadataInput → ReadingStatus → UpdateReadingStatusInput
status_input inp asked = record {
  book_id = inp.book_id;
  library_id = inp.library_id;
  changed_by = inp.changed_by;
  reading_status = asked;
}

-- The status that the answer carries.
abbrev pub answered : Option ReadingStatus → OwnedBook → ℕ → ReadingStatus
answered none book user = book.reading_status
answered (some asked) book user = view_after asked book.current_reader_id user

module _ (inp : UpdateBookMetadataInput) (now : ℕ) (s : Catalog) where
  abbrev pub marked : Catalog
  marked = (mark_given inp.reading_status inp.book_id inp.changed_by now s).1

  abbrev pub stored : OwnedBook → OwnedBook
  stored book = described inp now (with_status inp.reading_status inp.changed_by book)

  -- The state after an update that passes the guards.
  abbrev pub after : OwnedBook → Catalog
  after book = record marked {
    books = save_rows (stored book) s.books;
    history = insert (metadata_event inp now) s.history;
  }

  run_for :
      (asked : Option ReadingStatus) (book : OwnedBook)
      → inp.reading_status ≡ asked
      → book_by_id inp.book_id s.books ≡ some book
      → book.id ≡ inp.book_id
      → book.library_id ≡ inp.library_id
      → update_book_metadata inp now s ≡ (
        ok (record (stored book) { reading_status = answered asked book inp.changed_by }),
        after book,
      )
  unfolding update_book_metadata mark_given
  run_for none book e found key lib = ground arith
  run_for (some asked) book e found key lib = ground (
    arith,
    mark_returns inp.book_id inp.changed_by now s asked,
    mark_books inp.book_id inp.changed_by now s asked,
    mark_history inp.book_id inp.changed_by now s asked,
    mark_view inp.book_id inp.changed_by now s asked book.current_reader_id,
  )

  marked-mark :
      (asked : ReadingStatus)
      → inp.reading_status ≡ some asked
      → marked ≡ (mark asked inp.book_id inp.changed_by now s).1
  unfolding mark_given
  marked-mark asked e = rw e refl

  update_book_metadata-found :
      {b : OwnedBook}
      → (update_book_metadata inp now s).0 ≡ ok b
      → (book : OwnedBook) × (book_by_id inp.book_id s.books ≡ some book)
        × (book.id ≡ inp.book_id)
        × (book.library_id ≡ inp.library_id)
  unfolding update_book_metadata
  update_book_metadata-found h = elim (Option-cases (book_by_id inp.book_id s.books)) [
    | inl gone ↦ ground arith
    | inr (book, found) ↦ (book, found, book_by_id-id _ s.books book found, ground arith)
  ]

  -- An update that returns gives the copy with the columns that the input gives and every other column as
  -- it was, stores it, and adds one event to the history; every other copy is as it was.
  pub update_book_metadata_lem :
      {b : OwnedBook} (j : ℕ)
      → (update_book_metadata inp now s).0 ≡ ok b
      → let s' = (update_book_metadata inp now s).1 in
        (book : OwnedBook) × (book_by_id inp.book_id s.books ≡ some book)
        × (b ≡ record (stored book) {
          reading_status = answered inp.reading_status book inp.changed_by;
        })
        × (book_by_id j s'.books
            ≡ (if inp.book_id == j then some (stored book) else book_by_id j s.books))
        × (s'.history ≡ s.history ++ (metadata_event inp now ∷ []))
  update_book_metadata_lem j h =
      let (book, found, key, lib) = update_book_metadata-found h in
      let run = run_for inp.reading_status book refl found key lib in
      (
        book,
        found,
        ground (arith, run, h),
        elim (Bool-cases (inp.book_id == j)) [
          | inl hit ↦
              let same : inp.book_id ≡ j = ground arith in
              let there : book_by_id j s.books ≡ some book = rw (← same) found in
              ground (arith, run, key, book_by_id-save (stored book) s.books j, there)
          | inr miss ↦ ground (arith, run, key, book_by_id-save (stored book) s.books j)
        ],
        ground (arith, run),
      )

  -- An update that asks for a status and returns leaves the readers, the reads and the abandonments as
  -- the update of the reading status does, so that every member sees the same status of every copy;
  -- both answers carry the same status.
  pub update_book_metadata-as_status :
      {b : OwnedBook} (asked : ReadingStatus) (j v : ℕ)
      → inp.reading_status ≡ some asked
      → (update_book_metadata inp now s).0 ≡ ok b
      → let s' = (update_book_metadata inp now s).1 in
        let (out, t) = update_reading_status (status_input inp asked) now s in
        (s'.reads ≡ t.reads)
        × (s'.abandonments ≡ t.abandonments)
        × (reader_in s' j ≡ reader_in t j)
        × (status_in s' j v ≡ status_in t j v)
        × (c : OwnedBook) × (out ≡ ok c)
        × (b.reading_status ≡ c.reading_status)
  update_book_metadata-as_status asked j v e h =
      let (book, found, key, lib) = update_book_metadata-found h in
      let run = run_for (some asked) book e found key lib in
      let other = update_run (status_input inp asked) now s book found key lib in
      let moved = marked-mark asked e in
      let mine = book_by_id-save (stored book) s.books j in
      let theirs = book_by_id-save (Status.stored (status_input inp asked) now book) s.books j in
      (
        ground (arith, run, other, moved),
        ground (arith, run, other, moved),
        elim (Bool-cases (inp.book_id == j)) [
          | inl hit ↦
              let same : inp.book_id ≡ j = ground arith in
              let there : book_by_id j s.books ≡ some book = rw (← same) found in
              ground (arith, run, other, moved, key, e, mine, theirs, there)
          | inr miss ↦ ground (arith, run, other, moved, key, e, mine, theirs)
        ],
        elim (Bool-cases (inp.book_id == j)) [
          | inl hit ↦
              let same : inp.book_id ≡ j = ground arith in
              let there : book_by_id j s.books ≡ some book = rw (← same) found in
              ground (arith, run, other, moved, key, e, mine, theirs, there)
          | inr miss ↦ ground (arith, run, other, moved, key, e, mine, theirs)
        ],
        record (Status.stored (status_input inp asked) now book) {
          reading_status = view_after asked book.current_reader_id inp.changed_by;
        },
        ap (λ out. out.0) other,
        ground (arith, run, h, e),
      )

  mark_given-IsConsistent :
      (asked : Option ReadingStatus) (book : OwnedBook)
      → book_by_id inp.book_id s.books ≡ some book
      → IsConsistent s
      → IsConsistent (record ((mark_given asked inp.book_id inp.changed_by now s).1) {
        books = save_rows (described inp now (with_status asked inp.changed_by book)) s.books;
      })
  unfolding mark_given
  mark_given-IsConsistent none book found h = record {
    in_step =
        save_rows-IsInStep (described inp now book) s.books
          (find-All IsInStep (λ (b : OwnedBook). b.id == inp.book_id) s.books found h.in_step)
          h.in_step;
    exclusive = h.exclusive;
  }
  mark_given-IsConsistent (some asked) book found h = record {
    in_step =
        save_rows-IsInStep (described inp now (with_status (some asked) inp.changed_by book))
          s.books refl h.in_step;
    exclusive = mark-IsExclusive asked inp.book_id inp.changed_by now s h.exclusive;
  }

  -- An update of the metadata, whether it returns or raises, keeps the stored column in step with the reader
  -- of each copy, and nobody has both read and abandoned one copy.
  pub update_book_metadata-IsConsistent :
      IsConsistent s → IsConsistent (update_book_metadata inp now s).1
  unfolding update_book_metadata
  update_book_metadata-IsConsistent h = elim (Option-cases (book_by_id inp.book_id s.books)) [
    | inl gone ↦ let same : (update_book_metadata inp now s).1 ≡ s = ground arith in rw same h
    | inr (book, found) ↦ elim (Bool-cases (book.library_id == inp.library_id)) [
      | inr other ↦ let same : (update_book_metadata inp now s).1 ≡ s = ground arith in rw same h
      | inl own ↦
          let run =
            run_for inp.reading_status book refl found (book_by_id-id _ s.books book found)
              (ground arith) in
          let kept = mark_given-IsConsistent inp.reading_status book found h in
          rw run (record { in_step = kept.in_step; exclusive = kept.exclusive })
    ]
  ]

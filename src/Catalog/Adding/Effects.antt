-- ===== src/Catalog/Adding/Effects.antt =====
-- What adding a copy does, when it returns and when it raises a duplicate.
use jinbocho_catalog_v.Base.{
  ℕ, String, ◌≡◌, refl, inl, inr, Bool, true, false, none, some, [], ◌∷◌, ◌++◌, arith, ◌==◌, ◌&&◌,
  ◌||◌, if◌then◌else◌, Bool-cases, Option-cases, ap,
}
use jinbocho_catalog_v.Base.Table.{find}
use jinbocho_catalog_v.Base.Member.{same_pair}
use jinbocho_catalog_v.Domain.Book.{
  OwnedBook, ReadingStatus, to_read, reading, read, abandoned, HistoryData, BookEventType,
  BookHistory,
}
use jinbocho_catalog_v.Domain.Record.{BibliographicRecord}
use jinbocho_catalog_v.Exec.{ok, Result-cases}
use jinbocho_catalog_v.Catalog.State.{Catalog}
use jinbocho_catalog_v.Catalog.BookRepo.{book_by_id, save_rows}
use jinbocho_catalog_v.Catalog.ReadRepo.{has_read}
use jinbocho_catalog_v.Catalog.Rows.{book_by_id-save, has_read-add}
use jinbocho_catalog_v.Catalog.RecordRepo.{has_title_author}
use jinbocho_catalog_v.Catalog.Duplicates.{Fuzzy, check_for_duplicate}
use jinbocho_catalog_v.Catalog.Duplicates.Reads.{
  copy_of, check_for_duplicate-Answers, check_for_duplicate-none,
}
use jinbocho_catalog_v.Catalog.Adding.{
  AddBookInput, new_book, resolve_bibliographic_record, raise_conflict, check_new, add_read,
  store_book, add_book, is_read_status,
}
use jinbocho_catalog_v.Catalog.Adding.Writes.{resolve-WritesRecords, check-state}

-- The event that a new copy adds to the history.
abbrev pub created_event : AddBookInput → (book_id now : ℕ) → ReadingStatus → BookHistory
created_event inp book_id now seen = record {
  owned_book_id = book_id;
  event_type = BookEventType.created;
  changed_by = inp.changed_by;
  old_data = HistoryData.no_data;
  new_data = HistoryData.created seen inp.shelf_id;
  created_at = now;
}

-- The status that the caller sees of a copy that was added so: what was asked for, but that a new copy
-- is never abandoned.
abbrev pub status_shown : ReadingStatus → ReadingStatus
status_shown abandoned = to_read
status_shown asked = asked

module _ (inp : AddBookInput) (rec : BibliographicRecord) (k now : ℕ) (s : Catalog) where
  pub store-reads :
      (is_read : Bool) (b u c v : ℕ)
      → has_read c v (add_read is_read b u now s).1.reads
        ≡ ((is_read && same_pair b u c v) || has_read c v s.reads)
  unfolding add_read
  store-reads true b u c v = has_read-add b u none now c v s.reads
  store-reads false b u c v = refl

  abbrev pub stored_state : Catalog
  stored_state = record s {
    books = save_rows (new_book inp rec.id k now) s.books;
    reads = (add_read (is_read_status inp.reading_status) k inp.changed_by now s).1.reads;
    history = s.history ++ (created_event inp k now (status_shown inp.reading_status) ∷ []);
  }

  pub store-state :
      (asked : ReadingStatus)
      → inp.reading_status ≡ asked
      → book_by_id k s.books ≡ none
      → store_book inp rec k now s ≡ (
        ok (record (new_book inp rec.id k now) { reading_status = status_shown asked }),
        stored_state,
      )
  unfolding store_book add_read
  store-state to_read e fresh = ground arith
  store-state reading e fresh = ground arith
  store-state read e fresh = ground arith
  store-state abandoned e fresh = ground arith

module _ (normalize_isbn : String → String) (fz : Fuzzy) (inp : AddBookInput)
    (record_id book_id now : ℕ) (s : Catalog) where
  -- The state with the record that was found or added.
  abbrev pub resolved : Catalog
  resolved = (resolve_bibliographic_record normalize_isbn inp record_id now s).1

  -- A call that returns resolved a record, passed the check, and stored the copy.
  pub add_book-steps :
      {b : OwnedBook}
      → (add_book normalize_isbn fz inp record_id book_id now s).0 ≡ ok b
      → (rec : BibliographicRecord) × ((resolve_bibliographic_record normalize_isbn inp record_id
            now s).0
          ≡ ok rec)
        × (check_new inp.is_intentional_duplicate fz inp.library_id rec resolved
            ≡ (ok tt, resolved))
        × (add_book normalize_isbn fz inp record_id book_id now s
            ≡ store_book inp rec book_id now resolved)
  unfolding add_book
  add_book-steps h =
      elim (Result-cases (resolve_bibliographic_record normalize_isbn inp record_id now s).0) [
        | inr (e, out) ↦ absurd (ground arith)
        | inl (rec, out) ↦
            let kept = check-state inp.is_intentional_duplicate fz inp.library_id rec resolved in
            elim (Result-cases
              (check_new inp.is_intentional_duplicate fz inp.library_id rec resolved).0) [
                | inr (e, raised) ↦ absurd (ground arith)
                | inl (u, passed) ↦ (rec, out, ground arith, ground arith)
              ]
      ]

  -- With an id that no copy has, a call that returns resolved a record and gives the new copy of it,
  -- with the status that the caller sees: the copy is added and every other is untouched, the caller has
  -- read it exactly if that was asked for, nobody else's reads change, and the history gains one event.
  pub add_book-adds :
      {b : OwnedBook} (j c v : ℕ)
      → book_by_id book_id s.books ≡ none
      → (add_book normalize_isbn fz inp record_id book_id now s).0 ≡ ok b
      → let s' = (add_book normalize_isbn fz inp record_id book_id now s).1 in
        (rec : BibliographicRecord) × ((resolve_bibliographic_record normalize_isbn inp record_id
            now s).0
          ≡ ok rec)
        × (b ≡ record (new_book inp rec.id book_id now) {
          reading_status = status_shown inp.reading_status;
        })
        × (book_by_id j s'.books ≡ (
            if book_id == j then some (new_book inp rec.id book_id now) else book_by_id j s.books))
        × (has_read c v s'.reads ≡ (
            (is_read_status inp.reading_status && same_pair book_id inp.changed_by c v)
            || has_read c v s.reads))
        × (s'.history
            ≡ s.history ++ (created_event inp book_id now (status_shown inp.reading_status) ∷ []))
  add_book-adds j c v fresh h =
      let (rec, out, passed, stored) = add_book-steps h in
      let only = resolve-WritesRecords normalize_isbn inp record_id now s in
      let still : book_by_id book_id resolved.books ≡ none = ground (arith, only, fresh) in
      let result = store-state inp rec book_id now resolved inp.reading_status refl still in
      let new = new_book inp rec.id book_id now in
      let books = book_by_id-save new resolved.books j in
      let reads =
        store-reads inp rec book_id now resolved (is_read_status inp.reading_status) book_id
          inp.changed_by c v in
      let same : resolved.books ≡ s.books = ap (λ (t : Catalog). t.books) only in
      let unread : resolved.reads ≡ s.reads = ap (λ (t : Catalog). t.reads) only in
      let told : resolved.history ≡ s.history = ap (λ (t : Catalog). t.history) only in
      (
        rec,
        out,
        ground (arith, stored, result, h),
        elim (Bool-cases (book_id == j)) [
          | inl hit ↦
              let key : book_id ≡ j = ground arith in
              let absent : book_by_id j resolved.books ≡ none = rw (← key) still in
              ground (arith, stored, result, books, absent)
          | inr miss ↦ ground (arith, stored, result, books, same)
        ],
        ground (arith, stored, result, reads, unread),
        ground (arith, stored, result, told),
      )

  -- A call that returns, and is not for an intended duplicate, found no copy of the record that it
  -- resolved, nor of the first record of the library with its title and author.
  pub add_book_unique :
      {b : OwnedBook}
      → inp.is_intentional_duplicate ≡ false
      → (add_book normalize_isbn fz inp record_id book_id now s).0 ≡ ok b
      → (rec : BibliographicRecord) × ((resolve_bibliographic_record normalize_isbn inp record_id
            now s).0
          ≡ ok rec)
        × (copy_of rec.id s ≡ none)
        × ((other : BibliographicRecord)
            → find (has_title_author inp.library_id rec.title rec.main_author) resolved.records
              ≡ some other
            → copy_of other.id s ≡ none)
  unfolding check_new raise_conflict
  add_book_unique plain h =
      let (rec, out, passed, stored) = add_book-steps h in
      let only = resolve-WritesRecords normalize_isbn inp record_id now s in
      let same : resolved.books ≡ s.books = ap (λ (t : Catalog). t.books) only in
      let (first, second) =
        check_for_duplicate-none fz rec resolved inp.library_id (unraised rec passed) in
      (rec, out, rw (← same) first, λ other titled. rw (← same) (second other titled))
    where
      unraised :
          (rec : BibliographicRecord)
          → check_new inp.is_intentional_duplicate fz inp.library_id rec resolved
            ≡ (ok tt, resolved)
          → check_for_duplicate fz inp.library_id rec resolved ≡ (ok none, resolved)
      unraised rec passed =
          let (c, out) = check_for_duplicate-Answers fz rec resolved inp.library_id in
          elim (Option-cases c) [
            | inl free ↦ ground (arith, out)
            | inr (conflict, taken) ↦ absurd (ground (arith, out))
          ]

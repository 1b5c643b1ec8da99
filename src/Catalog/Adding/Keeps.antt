-- ===== src/Catalog/Adding/Keeps.antt =====
-- What adding a copy keeps, and what a refused copy leaves behind.
use jinbocho_catalog_v.Base.{
  ℕ, String, ◌≡◌, refl, inl, inr, true, false, Option, none, some, List, [], ◌∷◌, arith, ◌==◌, ◌&&◌,
  not, Bool-cases, ap,
}
use jinbocho_catalog_v.Base.Table.{insert, find}
use jinbocho_catalog_v.Domain.Book.{ReadingStatus, to_read, reading, read, abandoned}
use jinbocho_catalog_v.Domain.Record.{BibliographicRecord}
use jinbocho_catalog_v.Domain.Errors.{Error, DuplicateBookConflict, duplicate_book_error}
use jinbocho_catalog_v.Exec.{ok, err, Result-cases}
use jinbocho_catalog_v.Catalog.State.{Catalog}
use jinbocho_catalog_v.Catalog.BookRepo.{book_by_id}
use jinbocho_catalog_v.Catalog.AbandonmentRepo.{has_abandoned}
use jinbocho_catalog_v.Catalog.Invariant.{IsConsistent, save_rows-IsInStep}
use jinbocho_catalog_v.Catalog.ReadingStatus.{stored_status}
use jinbocho_catalog_v.Catalog.RecordRepo.{
  record_by_id, has_isbn, find_by_isbn, is_given, save, save_over, insert_checked, insert_new,
}
use jinbocho_catalog_v.Catalog.Duplicates.{Fuzzy}
use jinbocho_catalog_v.Catalog.Adding.{
  AddBookInput, new_book, new_record, stored_isbn, find_isbn, create_record, resolve_from,
  resolve_bibliographic_record, check_new, initial_status, initial_reader, add_book, is_read_status,
}
use jinbocho_catalog_v.Catalog.Adding.Writes.{resolve-WritesRecords, check-state}
use jinbocho_catalog_v.Catalog.Adding.Effects.{
  resolved, stored_state, store-state, store-reads, add_book-steps,
}

-- The invariant reads the copies, the reads and the abandonments alone.
IsConsistent-same :
    (s t : Catalog)
    → t.books ≡ s.books
    → t.reads ≡ s.reads
    → t.abandonments ≡ s.abandonments
    → IsConsistent s
    → IsConsistent t
IsConsistent-same s t b r a h = record {
  in_step = rw b h.in_step;
  exclusive = λ book user. rw (r, a) (h.exclusive book user);
}

initial-IsInStep :
    (asked : ReadingStatus) (user : ℕ)
    → initial_status asked ≡ stored_status (initial_reader asked user)
initial-IsInStep to_read user = refl
initial-IsInStep reading user = refl
initial-IsInStep read user = refl
initial-IsInStep abandoned user = refl

module _ (inp : AddBookInput) (rec : BibliographicRecord) (k now : ℕ) (s : Catalog) where
  stored-IsConsistent :
      ((user : ℕ) → has_abandoned k user s.abandonments ≡ false)
      → IsConsistent s
      → IsConsistent (stored_state inp rec k now s)
  stored-IsConsistent unseen h = record {
    in_step =
        save_rows-IsInStep (new_book inp rec.id k now) s.books
          (initial-IsInStep inp.reading_status inp.changed_by) h.in_step;
    exclusive = λ book user.
        let reads =
          store-reads inp rec k now s (is_read_status inp.reading_status) k inp.changed_by book
            user in
        elim (Bool-cases (k == book)) [
          | inl same ↦
              let key : k ≡ book = ground arith in
              let none_there : has_abandoned book user s.abandonments ≡ false =
                rw (← key) (unseen user) in
              ground (arith, none_there)
          | inr other ↦ ground (arith, reads, h.exclusive book user)
        ];
  }

module _ (normalize_isbn : String → String) (fz : Fuzzy) (inp : AddBookInput)
    (record_id book_id now : ℕ) (s : Catalog) where
  -- A call that raises leaves everything but the records.
  raised-state :
      {e : Error}
      → (add_book normalize_isbn fz inp record_id book_id now s).0 ≡ err e
      → book_by_id book_id s.books ≡ none
      → (add_book normalize_isbn fz inp record_id book_id now s).1
        ≡ resolved normalize_isbn fz inp record_id book_id now s
  unfolding add_book
  raised-state h fresh =
      let only = resolve-WritesRecords normalize_isbn inp record_id now s in
      elim (Result-cases (resolve_bibliographic_record normalize_isbn inp record_id now s).0) [
        | inr (e', out) ↦ ground arith
        | inl (rec, out) ↦
            let seen = resolved normalize_isbn fz inp record_id book_id now s in
            let kept = check-state inp.is_intentional_duplicate fz inp.library_id rec seen in
            elim (Result-cases
              (check_new inp.is_intentional_duplicate fz inp.library_id rec seen).0) [
                | inr (e', raised) ↦ ground arith
                | inl (u, passed) ↦
                    let still : book_by_id book_id seen.books ≡ none =
                      ground (arith, only, fresh) in
                    let result =
                      store-state inp rec book_id now seen inp.reading_status refl still in
                    absurd (ground arith)
              ]
      ]

  -- With an id for the copy that neither a copy nor an abandonment has, adding a copy, whether it
  -- returns or raises, keeps the stored column in step with the reader of each copy, and nobody has both
  -- read and abandoned one copy.
  pub add_book-IsConsistent :
      book_by_id book_id s.books ≡ none
      → ((user : ℕ) → has_abandoned book_id user s.abandonments ≡ false)
      → IsConsistent s
      → IsConsistent (add_book normalize_isbn fz inp record_id book_id now s).1
  add_book-IsConsistent fresh unseen h =
      let only = resolve-WritesRecords normalize_isbn inp record_id now s in
      let seen = resolved normalize_isbn fz inp record_id book_id now s in
      let books : seen.books ≡ s.books = ap (λ (t : Catalog). t.books) only in
      let reads : seen.reads ≡ s.reads = ap (λ (t : Catalog). t.reads) only in
      let left : seen.abandonments ≡ s.abandonments = ap (λ (t : Catalog). t.abandonments) only in
      let kept = IsConsistent-same s seen books reads left h in
      elim (Result-cases (add_book normalize_isbn fz inp record_id book_id now s).0) [
        | inr (e, raised) ↦ rw (raised-state raised fresh) kept
        | inl (b, returned) ↦
            let (rec, out, passed, stored) =
              add_book-steps normalize_isbn fz inp record_id book_id now s returned in
            let still : book_by_id book_id seen.books ≡ none = rw books fresh in
            let unleft : (user : ℕ) → has_abandoned book_id user seen.abandonments ≡ false =
              λ user. rw left (unseen user) in
            let result = store-state inp rec book_id now seen inp.reading_status refl still in
            rw (stored, result) (stored-IsConsistent inp rec book_id now seen unleft kept)
      ]

module _ (normalize_isbn : String → String) (fz : Fuzzy) (inp : AddBookInput)
    (record_id book_id now : ℕ) (s : Catalog) where
  -- A new record has an id that no record has, so no row of its ISBN is another one.
  no-clash :
      (rows : List BibliographicRecord) (lib : ℕ) (isbn : String) (k : ℕ)
      → find (has_isbn lib isbn) rows ≡ none
      → find (λ (x : BibliographicRecord). has_isbn lib isbn x && not (x.id == k)) rows ≡ none
  no-clash [] lib isbn k h = refl
  no-clash (x ∷ rows) lib isbn k h = elim (Bool-cases (has_isbn lib isbn x)) [
    | inl hit ↦ absurd (ground arith)
    | inr miss ↦ ground (arith, no-clash rows lib isbn k)
  ]

  created-state :
      (isbn : Option String) (title : String)
      → stored_isbn normalize_isbn inp.isbn ≡ isbn
      → is_given (some title) ≡ true
      → find_isbn normalize_isbn inp.library_id isbn s ≡ (ok none, s)
      → record_by_id record_id s.records ≡ none
      → create_record normalize_isbn inp (some title) record_id now s ≡ (
        ok (new_record normalize_isbn inp title record_id now),
        record s { records = insert (new_record normalize_isbn inp title record_id now) s.records },
      )
  unfolding create_record save save_over insert_checked insert_new find_isbn find_by_isbn
  created-state none title e given none_there fresh = ground arith
  created-state (some isbn) title e given none_there fresh =
      let free : find (has_isbn inp.library_id isbn) s.records ≡ none = ground arith in
      let alone = no-clash s.records inp.library_id isbn record_id free in ground (arith, alone)

  -- A call that resolves no record by id or ISBN, has a title, and raises a duplicate, has already added the
  -- new record: it stays, with no copy of it.
  pub add_book-orphan :
      {title : String} {c : DuplicateBookConflict}
      → inp.bibliographic_record_id ≡ none
      → inp.title ≡ some title
      → is_given (some title) ≡ true
      → find_isbn normalize_isbn inp.library_id (stored_isbn normalize_isbn inp.isbn) s
        ≡ (ok none, s)
      → record_by_id record_id s.records ≡ none
      → book_by_id book_id s.books ≡ none
      → (add_book normalize_isbn fz inp record_id book_id now s).0 ≡ err (duplicate_book_error c)
      → (add_book normalize_isbn fz inp record_id book_id now s).1 ≡ record s {
        records = insert (new_record normalize_isbn inp title record_id now) s.records;
      }
  unfolding resolve_bibliographic_record resolve_from
  add_book-orphan {title} asked titled given absent fresh new h =
      let created =
        created-state (stored_isbn normalize_isbn inp.isbn) title refl given absent fresh in
      let left = raised-state normalize_isbn fz inp record_id book_id now s h new in
      ground (arith, created, left)

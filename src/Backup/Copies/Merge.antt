-- ===== src/Backup/Copies/Merge.antt =====
-- What an import makes of two copies in one place, and of a copy whose reader it does not know.
use jinbocho_catalog_v.Base.{
  ℕ, ◌≡◌, ◌≢◌, refl, Bool, true, Option, none, some, inl, inr, arith, Option-cases, opt_eq,
}
use jinbocho_catalog_v.Base.Table
use jinbocho_catalog_v.Domain.Book.{OwnedBook, BookCondition, BookSource, ReadingStatus, reading}
use jinbocho_catalog_v.Exec.{ok}
use jinbocho_catalog_v.Catalog.BookRepo
use jinbocho_catalog_v.Catalog.BookRepo.{book_by_id, is_duplicate}
use jinbocho_catalog_v.Catalog.Rows.{book_by_id-save}
use jinbocho_catalog_v.Catalog.ReadingStatus.{stored_status}
use jinbocho_catalog_v.Backup.Names.{condition_named, source_named, status_named}
use jinbocho_catalog_v.Backup.Whole.Steps.{given_named-cases}
use jinbocho_catalog_v.Backup.Input.{IdMap, ImportOwnedBookItem}
use jinbocho_catalog_v.Backup.Session.{Session}
use jinbocho_catalog_v.Backup.Loop.{get, get_given}
use jinbocho_catalog_v.Backup.Copies.{IdMaps, find_book, add_book, restored_book}

-- Two items for copies of one record in one place, or both without a place.
pub record IsSameSlot (a b : ImportOwnedBookItem) : Type 0 where
  pub same_record : a.bibliographic_record_id ≡ b.bibliographic_record_id
  pub same_room : a.room_id ≡ b.room_id
  pub same_bookcase : a.bookcase_id ≡ b.bookcase_id
  pub same_section : a.section_id ≡ b.section_id
  pub same_shelf : a.shelf_id ≡ b.shelf_id
  pub same_position : a.shelf_position ≡ b.shelf_position

opt_eq_self : (a : Option ℕ) → opt_eq a a ≡ true
opt_eq_self none = refl
opt_eq_self (some a) = ground arith

module _ (lib now : ℕ) (users : IdMap) (maps : IdMaps) where
  -- A call that returns stored the copy, of the record that its item refers to.
  add_book-writes :
      (a : ImportOwnedBookItem) (k : ℕ) (s : Session)
      → (add_book lib now users maps a k s).0 ≡ ok tt
      → (r : ℕ) × (c : Option BookCondition) × (o : Option BookSource) × (st : ReadingStatus) × (get
            a.bibliographic_record_id maps.records
          ≡ some r)
        × (status_named a.reading_status ≡ some st)
        × ((add_book lib now users maps a k s).1 ≡ record s {
          catalog = record s.catalog {
            books =
                BookRepo.save_rows (restored_book lib now users maps a r k c o st) s.catalog.books;
          };
        })
  unfolding add_book BookRepo.save
  add_book-writes a k s h = elim (Option-cases (get a.bibliographic_record_id maps.records)) [
    | inl gone ↦ absurd (ground arith)
    | inr (r, found) ↦ elim (given_named-cases condition_named a.condition s) [
      | inr bad ↦ absurd (ground (arith, bad))
      | inl (c, fine) ↦ elim (given_named-cases source_named a.source s) [
        | inr bad ↦ absurd (ground (arith, fine, bad))
        | inl (o, also) ↦ elim (Option-cases (status_named a.reading_status)) [
          | inl unknown ↦ absurd (ground (arith, fine, also))
          | inr (st, known) ↦ (r, c, o, st, found, known, ground (arith, fine, also))
        ]
      ]
    ]
  ]

  duplicate_of :
      (a b : ImportOwnedBookItem) (r k : ℕ) (c : Option BookCondition) (o : Option BookSource)
      (st : ReadingStatus)
      → IsSameSlot a b
      → is_duplicate lib r
          (get_given b.room_id maps.rooms)
          (get_given b.bookcase_id maps.bookcases)
          (get_given b.section_id maps.sections)
          (get_given b.shelf_id maps.shelves)
          b.shelf_position
          (restored_book lib now users maps a r k c o st)
        ≡ true
  duplicate_of a b r k c o st same =
      rw
        (
          ← same.same_room,
          ← same.same_bookcase,
          ← same.same_section,
          ← same.same_shelf,
          ← same.same_position,
        )
        (ground (
          arith,
          opt_eq_self (get_given a.room_id maps.rooms),
          opt_eq_self (get_given a.bookcase_id maps.bookcases),
          opt_eq_self (get_given a.section_id maps.sections),
          opt_eq_self (get_given a.shelf_id maps.shelves),
          opt_eq_self a.shelf_position,
        ))

  -- Once a copy is added under a new id, any item of the same record and place, also one without a place,
  -- finds a copy that is there, so that it is not added.
  pub add_book-merges :
      (a b : ImportOwnedBookItem) (k : ℕ) (s : Session)
      → IsSameSlot a b
      → book_by_id k s.catalog.books ≡ none
      → (add_book lib now users maps a k s).0 ≡ ok tt
      → let t = (add_book lib now users maps a k s).1 in
        (x : ℕ) × (find_book lib now users maps b t ≡ (ok (some x), t))
  unfolding find_book BookRepo.find_duplicate
  add_book-merges a b k s same fresh h =
      let (r, c, o, st, found, known, wrote) = add_book-writes a k s h in
      let new = restored_book lib now users maps a r k c o st in
      let rows =
        Table.save-absent (λ (x : OwnedBook). x.id) BookRepo.assign new s.catalog.books fresh in
      let books : (add_book lib now users maps a k s).1.catalog.books
          ≡ Table.insert new s.catalog.books =
        ground (arith, wrote, rows) in
      let p : OwnedBook → Bool =
        is_duplicate lib r (get_given b.room_id maps.rooms) (get_given b.bookcase_id maps.bookcases)
          (get_given b.section_id maps.sections) (get_given b.shelf_id maps.shelves)
          b.shelf_position in
      let hit : p new ≡ true = duplicate_of a b r k c o st same in
      let search = Table.find-insert p new s.catalog.books in
      let known_record : get b.bibliographic_record_id maps.records ≡ some r =
        rw (← same.same_record) found in
      elim (Option-cases (Table.find p s.catalog.books)) [
        | inr (old, there) ↦
            let first : Table.find p (add_book lib now users maps a k s).1.catalog.books
                ≡ some old =
              rw books (ground (arith, search, there)) in
            (old.id, ground (arith, known_record, first))
        | inl absent ↦
            let first : Table.find p (add_book lib now users maps a k s).1.catalog.books
                ≡ some new =
              rw books (ground (arith, search, absent, hit)) in
            (k, ground (arith, known_record, first))
      ]

  -- If the addition of a copy returns, under an id that no copy has, and the stored status of its item says
  -- that it is being read, by nobody or by a member that the map of users does not have, then the copy is
  -- added with that status and no reader: the column differs from what is stored for a copy without a
  -- reader.
  pub add_book-out_of_step :
      (a : ImportOwnedBookItem) (k : ℕ) (s : Session)
      → status_named a.reading_status ≡ some reading
      → get_given a.current_reader_id users ≡ none
      → book_by_id k s.catalog.books ≡ none
      → (add_book lib now users maps a k s).0 ≡ ok tt
      → (b : OwnedBook) × (book_by_id k (add_book lib now users maps a k s).1.catalog.books
          ≡ some b)
        × (b.reading_status ≡ reading)
        × (b.current_reader_id ≡ none)
        × (b.reading_status ≢ stored_status none)
  add_book-out_of_step a k s asked unknown fresh h =
      let (r, c, o, st, found, known, wrote) = add_book-writes a k s h in
      let new = restored_book lib now users maps a r k c o st in
      let saved = book_by_id-save new s.catalog.books k in
      let is_reading : st ≡ reading = ground (arith, asked, known) in
      (
        new,
        ground (arith, wrote, saved, fresh),
        is_reading,
        unknown,
        λ step. absurd (ground (arith, step, is_reading)),
      )

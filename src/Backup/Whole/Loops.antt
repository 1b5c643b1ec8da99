-- ===== src/Backup/Whole/Loops.antt =====
-- The loops of an import look up no id that is not there.
use jinbocho_catalog_v.Base.{
  ℕ, ◌≡◌, false, Option, inl, inr, List, [], ◌∷◌, arith, ◌||◌, is_some, contains, All, ap,
}
use jinbocho_catalog_v.Exec.{Exec, ok}
use jinbocho_catalog_v.Backup.Input.{
  IdMap, ImportRoomItem, ImportBookcaseItem, ImportSectionItem, ImportShelfItem, ImportRecordItem,
  ImportOwnedBookItem, ImportFullLibraryInput,
}
use jinbocho_catalog_v.Backup.Session.{Session}
use jinbocho_catalog_v.Backup.Loop.{get, Imported, nothing_yet, import_all, restore_all}
use jinbocho_catalog_v.Backup.Loop.Covers.{
  Safe, import_all-covers, import_all-Safe, restore_all-Safe, Ends, safe-Ends,
}
use jinbocho_catalog_v.Backup.Validate.Sound.{IsSound}
use jinbocho_catalog_v.Backup.Import.{
  find_record, add_record, find_room, add_room, find_bookcase, add_bookcase, find_section,
  add_section, find_shelf, add_shelf,
}
use jinbocho_catalog_v.Backup.Copies.{
  IdMaps, find_book, add_book, import_read, import_loan, import_event, import_wish,
}
use jinbocho_catalog_v.Backup.Whole.{
  import_records, import_rooms, import_bookcases, import_sections, import_shelves, import_books,
  restore_rows,
}
use jinbocho_catalog_v.Backup.Whole.Steps.{
  find_record-Safe, add_record-Safe, room-Safe, bookcase-Safe, section-Safe, shelf-Safe, book-Safe,
  import_read-Safe, import_loan-Safe, import_event-Safe, import_wish-Safe,
}
use jinbocho_catalog_v.Backup.Validate.{ids_of, record_ids, room_ids, bookcase_ids, section_ids}

All-imp :
    {A : Type 0} {P Q : A → Type 0} (xs : List A) → ((x : A) → P x → Q x) → All P xs → All Q xs
All-imp [] f h = tt
All-imp (x ∷ xs) f (p, ps) = (f x p, All-imp xs f ps)

module _ (uuid4 : ℕ → ℕ) (inp : ImportFullLibraryInput) (now : ℕ) where
  records-All :
      (items : List ImportRecordItem)
      → All
          (λ i.
            Safe (find_record inp.library_id now i)
            × ((k : ℕ) → Safe (add_record inp.library_id now i k)))
          items
  records-All [] = tt
  records-All (i ∷ items) = (
    (find_record-Safe inp.library_id now i, add_record-Safe inp.library_id now i),
    records-All items,
  )

  rooms-All :
      (items : List ImportRoomItem)
      → All
          (λ i.
            Safe (find_room inp.library_id now i)
            × ((k : ℕ) → Safe (add_room inp.library_id now i k)))
          items
  rooms-All [] = tt
  rooms-All (i ∷ items) = (room-Safe inp.library_id now i, rooms-All items)

  pub import_records-Safe : Safe (import_records uuid4 inp now)
  unfolding import_records
  import_records-Safe =
      import_all-Safe uuid4 (λ (r : ImportRecordItem). r.id) (find_record inp.library_id now)
        (add_record inp.library_id now) inp.bibliographic_records nothing_yet
        (records-All inp.bibliographic_records)

  pub import_rooms-Safe : Safe (import_rooms uuid4 inp now)
  unfolding import_rooms
  import_rooms-Safe =
      import_all-Safe uuid4 (λ (r : ImportRoomItem). r.id) (find_room inp.library_id now)
        (add_room inp.library_id now) inp.rooms nothing_yet (rooms-All inp.rooms)

  pub restore_rows-Safe :
      (records rooms bookcases sections shelves books : Imported)
      → Safe (restore_rows uuid4 inp now records rooms bookcases sections shelves books)
  unfolding restore_rows
  restore_rows-Safe records rooms bookcases sections shelves books s =
      let lib = inp.library_id in
      let users = inp.user_id_map in
      let one_read = import_read uuid4 lib now users books.ids records.ids in
      let one_loan = import_loan uuid4 lib now users books.ids records.ids in
      let one_event = import_event uuid4 lib now users books.ids records.ids in
      let one_wish = import_wish uuid4 lib now users books.ids records.ids in
      elim (every one_read inp.book_reads
        (import_read-Safe uuid4 lib now users books.ids records.ids) s) [
          | inr (e, t, bad, other) ↦ ground (arith, bad, other)
          | inl (reads, s1, r1) ↦
              elim (every one_loan inp.book_loans
                (import_loan-Safe uuid4 lib now users books.ids records.ids) s1) [
                  | inr (e, t, bad, other) ↦ ground (arith, r1, bad, other)
                  | inl (loans, s2, r2) ↦
                      elim (every one_event inp.book_history
                        (import_event-Safe uuid4 lib now users books.ids records.ids) s2) [
                          | inr (e, t, bad, other) ↦ ground (arith, r1, r2, bad, other)
                          | inl (events, s3, r3) ↦
                              elim (every one_wish inp.wishlist_items
                                (import_wish-Safe uuid4 lib now users books.ids records.ids) s3) [
                                  | inr (e, t, bad, other) ↦ ground (arith, r1, r2, r3, bad, other)
                                  | inl (wishes, s4, r4) ↦ ground (arith, r1, r2, r3, r4)
                                ]
                        ]
                ]
        ]
    where
      every :
          {Item : Type 0} (one : Item → Exec Session ℕ) (items : List Item)
          → ((i : Item) → Safe (one i))
          → (s : Session) → Ends (restore_all one items) s
      every one items safe s =
          safe-Ends (restore_all one items) s (restore_all-Safe one items safe s)

  pub covers :
      {Item : Type 0} (id : Item → ℕ) (find : Item → Exec Session (Option ℕ))
      (add : Item → ℕ → Exec Session (Unit {0})) (items : List Item) (s : Session) {out : Imported}
      {t : Session} (k : ℕ)
      → import_all uuid4 id find add items nothing_yet s ≡ (ok out, t)
      → is_some (get k out.ids) ≡ (contains k (ids_of id items) || false)
  covers id find add items s k h =
      import_all-covers uuid4 id find add items nothing_yet s k (ap (λ o. o.0) h)

  module _ (h : IsSound inp) where
    pub import_bookcases-Safe :
        (rooms : IdMap)
        → ((k : ℕ) → is_some (get k rooms) ≡ (contains k (room_ids inp) || false))
        → Safe (import_bookcases uuid4 inp now rooms)
    unfolding import_bookcases
    import_bookcases-Safe rooms has =
        import_all-Safe uuid4 (λ (b : ImportBookcaseItem). b.id)
          (find_bookcase inp.library_id now rooms) (add_bookcase inp.library_id now rooms)
          inp.bookcases nothing_yet
          (All-imp inp.bookcases
            (λ b sound.
              bookcase-Safe inp.library_id now rooms b (ground (arith, has b.room_id, sound)))
            h.bookcases)

    pub import_sections-Safe :
        (bookcases : IdMap)
        → ((k : ℕ) → is_some (get k bookcases) ≡ (contains k (bookcase_ids inp) || false))
        → Safe (import_sections uuid4 inp now bookcases)
    unfolding import_sections
    import_sections-Safe bookcases has =
        import_all-Safe uuid4 (λ (x : ImportSectionItem). x.id)
          (find_section inp.library_id now bookcases) (add_section inp.library_id now bookcases)
          inp.sections nothing_yet
          (All-imp inp.sections
            (λ x sound.
              section-Safe inp.library_id now bookcases x
                (ground (arith, has x.bookcase_id, sound)))
            h.sections)

    pub import_shelves-Safe :
        (sections : IdMap)
        → ((k : ℕ) → is_some (get k sections) ≡ (contains k (section_ids inp) || false))
        → Safe (import_shelves uuid4 inp now sections)
    unfolding import_shelves
    import_shelves-Safe sections has =
        import_all-Safe uuid4 (λ (x : ImportShelfItem). x.id)
          (find_shelf inp.library_id now sections) (add_shelf inp.library_id now sections)
          inp.shelves nothing_yet
          (All-imp inp.shelves
            (λ x sound.
              shelf-Safe inp.library_id now sections x (ground (arith, has x.section_id, sound)))
            h.shelves)

    pub import_books-Safe :
        (maps : IdMaps)
        → ((k : ℕ) → is_some (get k maps.records) ≡ (contains k (record_ids inp) || false))
        → Safe (import_books uuid4 inp now maps)
    unfolding import_books
    import_books-Safe maps has =
        import_all-Safe uuid4 (λ (b : ImportOwnedBookItem). b.id)
          (find_book inp.library_id now inp.user_id_map maps)
          (add_book inp.library_id now inp.user_id_map maps) inp.owned_books nothing_yet
          (All-imp inp.owned_books
            (λ b sound.
              book-Safe inp.library_id now inp.user_id_map maps b
                (ground (arith, has b.bibliographic_record_id, sound)))
            h.books)

-- ===== src/Backup/Whole/Steps.antt =====
-- No step of an import looks up an id that is not there, if the maps have the ids that its item refers to.
use jinbocho_catalog_v.Base.{
  ℕ, String, ◌≡◌, ◌⊎◌, refl, true, Option, none, some, inl, inr, arith, is_some, Bool-cases,
  Option-cases,
}
use jinbocho_catalog_v.Domain.Errors.{value_error}
use jinbocho_catalog_v.Exec.{ok, err}
use jinbocho_catalog_v.Catalog.RecordRepo
use jinbocho_catalog_v.Catalog.RecordRepo.{is_given}
use jinbocho_catalog_v.Places.SectionRepo
use jinbocho_catalog_v.Places.ShelfRepo
use jinbocho_catalog_v.Backup.Input.{
  IdMap, ImportRoomItem, ImportBookcaseItem, ImportSectionItem, ImportShelfItem, ImportRecordItem,
  ImportOwnedBookItem, ImportBookReadItem, ImportBookLoanItem, ImportBookHistoryItem,
  ImportWishlistItem,
}
use jinbocho_catalog_v.Backup.Loop.{get, draw}
use jinbocho_catalog_v.Backup.Loop.Covers.{Safe}
use jinbocho_catalog_v.Backup.Names.{
  condition_named, source_named, status_named, event_named, given_named,
}
use jinbocho_catalog_v.Backup.Import.{
  find_record, add_record, find_room, add_room, find_bookcase, add_bookcase, find_section,
  add_section, find_shelf, add_shelf,
}
use jinbocho_catalog_v.Backup.Copies.{
  IdMaps, find_book, add_book, import_read, import_loan, import_event, import_wish, if_found,
  import_wish_for, restore_wish,
}

pub given_named-cases :
    {S A : Type 0} (named : String → Option A) (t : Option String) (s : S)
    → ((a : Option A) × (given_named named t s ≡ (ok a, s)))
      ⊎ (given_named named t s ≡ (err value_error, s))
given_named-cases named none s = inl (none, refl)
given_named-cases named (some t) s = elim (Bool-cases (is_given (some t))) [
  | inr empty ↦ inl (none, ground arith)
  | inl given ↦ elim (Option-cases (named t)) [
    | inl unknown ↦ inr (ground arith)
    | inr (a, known) ↦ inl (some a, ground arith)
  ]
]

module _ (lib now : ℕ) where
  pub find_record-Safe : (item : ImportRecordItem) → Safe (find_record lib now item)
  unfolding find_record
  find_record-Safe item s = ground arith

  pub add_record-Safe : (item : ImportRecordItem) (k : ℕ) → Safe (add_record lib now item k)
  unfolding add_record RecordRepo.save RecordRepo.save_over RecordRepo.insert_checked
      RecordRepo.update_checked RecordRepo.insert_new
  add_record-Safe item k s = ground arith

  pub room-Safe :
      (item : ImportRoomItem)
      → Safe (find_room lib now item) × ((k : ℕ) → Safe (add_room lib now item k))
  unfolding find_room add_room
  room-Safe item = (λ s. refl, λ k s. refl)

  pub bookcase-Safe :
      (rooms : IdMap) (item : ImportBookcaseItem)
      → is_some (get item.room_id rooms) ≡ true
      → Safe (find_bookcase lib now rooms item)
        × ((k : ℕ) → Safe (add_bookcase lib now rooms item k))
  unfolding find_bookcase add_bookcase
  bookcase-Safe rooms item h = (λ s. ground (arith, h), λ k s. ground (arith, h))

  pub section-Safe :
      (bookcases : IdMap) (item : ImportSectionItem)
      → is_some (get item.bookcase_id bookcases) ≡ true
      → Safe (find_section lib now bookcases item)
        × ((k : ℕ) → Safe (add_section lib now bookcases item k))
  unfolding find_section add_section SectionRepo.save SectionRepo.save_checked
  section-Safe bookcases item h = (λ s. ground (arith, h), λ k s. ground (arith, h))

  pub shelf-Safe :
      (sections : IdMap) (item : ImportShelfItem)
      → is_some (get item.section_id sections) ≡ true
      → Safe (find_shelf lib now sections item)
        × ((k : ℕ) → Safe (add_shelf lib now sections item k))
  unfolding find_shelf add_shelf ShelfRepo.save ShelfRepo.save_checked
  shelf-Safe sections item h = (λ s. ground (arith, h), λ k s. ground (arith, h))

  pub book-Safe :
      (users : IdMap) (maps : IdMaps) (item : ImportOwnedBookItem)
      → is_some (get item.bibliographic_record_id maps.records) ≡ true
      → Safe (find_book lib now users maps item)
        × ((k : ℕ) → Safe (add_book lib now users maps item k))
  unfolding find_book add_book
  book-Safe users maps item h = (λ s. ground (arith, h), λ k s. added k s)
    where
      added : (k : ℕ) → Safe (add_book lib now users maps item k)
      added k s = elim (Option-cases (get item.bibliographic_record_id maps.records)) [
        | inl gone ↦ absurd (ground arith)
        | inr (r, found) ↦ elim (given_named-cases condition_named item.condition s) [
          | inr bad ↦ ground (arith, bad)
          | inl (c, fine) ↦ elim (given_named-cases source_named item.source s) [
            | inr bad ↦ ground (arith, fine, bad)
            | inl (o, also) ↦ elim (Option-cases (status_named item.reading_status)) [
              | inl unknown ↦ ground (arith, fine, also)
              | inr (st, known) ↦ ground (arith, fine, also)
            ]
          ]
        ]
      ]

module _ (uuid4 : ℕ → ℕ) (lib now : ℕ) (users books records : IdMap) where
  pub import_read-Safe :
      (item : ImportBookReadItem) → Safe (import_read uuid4 lib now users books records item)
  unfolding import_read if_found draw
  import_read-Safe item s = ground arith

  pub import_loan-Safe :
      (item : ImportBookLoanItem) → Safe (import_loan uuid4 lib now users books records item)
  unfolding import_loan if_found draw
  import_loan-Safe item s = ground arith

  pub import_event-Safe :
      (item : ImportBookHistoryItem) → Safe (import_event uuid4 lib now users books records item)
  unfolding import_event if_found draw
  import_event-Safe item s = elim (Option-cases (event_named item.event_type)) [
    | inl unknown ↦ ground arith
    | inr (e, known) ↦ ground arith
  ]

  pub import_wish-Safe :
      (item : ImportWishlistItem) → Safe (import_wish uuid4 lib now users books records item)
  unfolding import_wish import_wish_for restore_wish draw
  import_wish-Safe item s = ground arith

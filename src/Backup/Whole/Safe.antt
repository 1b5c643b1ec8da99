-- ===== src/Backup/Whole/Safe.antt =====
-- A backup that is not sound is refused before anything is written, and no import looks up an id that is
-- not there.
use jinbocho_catalog_v.Base.{ℕ, ◌≡◌, ◌≢◌, false, inl, inr, arith, ◌||◌, is_some, contains, ap}
use jinbocho_catalog_v.Domain.Errors.{value_error, key_error}
use jinbocho_catalog_v.Exec.{err}
use jinbocho_catalog_v.Backup.Input.{
  ImportRoomItem, ImportBookcaseItem, ImportSectionItem, ImportRecordItem, ImportFullLibraryInput,
}
use jinbocho_catalog_v.Backup.Session.{Session}
use jinbocho_catalog_v.Backup.Loop.{get, Imported}
use jinbocho_catalog_v.Backup.Loop.Covers.{is_key_error, Safe, safe-Ends}
use jinbocho_catalog_v.Backup.Validate.Sound.{IsSound, validate_referential_integrity-IsSound}
use jinbocho_catalog_v.Backup.Import.{
  find_record, add_record, find_room, add_room, find_bookcase, add_bookcase, find_section,
  add_section,
}
use jinbocho_catalog_v.Backup.Copies.{IdMaps}
use jinbocho_catalog_v.Backup.Whole.{
  import_records, import_rooms, import_bookcases, import_sections, import_shelves, import_books,
  import_rows, import_full_library, import_below,
}
use jinbocho_catalog_v.Backup.Validate.{record_ids, room_ids}
use jinbocho_catalog_v.Backup.Whole.Loops.{
  import_records-Safe, import_rooms-Safe, import_bookcases-Safe, import_sections-Safe,
  import_shelves-Safe, import_books-Safe, restore_rows-Safe, covers,
}

module _ (uuid4 : ℕ → ℕ) (inp : ImportFullLibraryInput) (now : ℕ) (h : IsSound inp) where
  -- From the bookcases on.
  places_on :
      (records rooms : Imported)
      → ((k : ℕ) → is_some (get k records.ids) ≡ (contains k (record_ids inp) || false))
      → ((k : ℕ) → is_some (get k rooms.ids) ≡ (contains k (room_ids inp) || false))
      → Safe (import_below uuid4 inp now records rooms)
  unfolding import_below import_bookcases import_sections
  places_on records rooms has_records has_rooms s2 =
      elim (safe-Ends (import_bookcases uuid4 inp now rooms.ids) s2
        (import_bookcases-Safe uuid4 inp now h rooms.ids has_rooms s2)) [
          | inr (e, t, bad, other) ↦ ground (arith, bad, other)
          | inl (bookcases, s3, r3) ↦
              let has_bookcases = λ (k : ℕ).
                covers uuid4 inp now (λ (b : ImportBookcaseItem). b.id)
                  (find_bookcase inp.library_id now rooms.ids)
                  (add_bookcase inp.library_id now rooms.ids) inp.bookcases s2 {out = bookcases} k
                  r3 in
              elim (safe-Ends (import_sections uuid4 inp now bookcases.ids) s3
                (import_sections-Safe uuid4 inp now h bookcases.ids has_bookcases s3)) [
                  | inr (e, t, bad, other) ↦ ground (arith, r3, bad, other)
                  | inl (sections, s4, r4) ↦
                      let has_sections = λ (k : ℕ).
                        covers uuid4 inp now (λ (x : ImportSectionItem). x.id)
                          (find_section inp.library_id now bookcases.ids)
                          (add_section inp.library_id now bookcases.ids) inp.sections s3
                          {out = sections} k r4 in
                      elim (safe-Ends (import_shelves uuid4 inp now sections.ids) s4
                        (import_shelves-Safe uuid4 inp now h sections.ids has_sections s4)) [
                          | inr (e, t, bad, other) ↦ ground (arith, r3, r4, bad, other)
                          | inl (shelves, s5, r5) ↦
                              let maps : IdMaps = record {
                                records = records.ids;
                                rooms = rooms.ids;
                                bookcases = bookcases.ids;
                                sections = sections.ids;
                                shelves = shelves.ids;
                              } in
                              elim (safe-Ends (import_books uuid4 inp now maps) s5
                                (import_books-Safe uuid4 inp now h maps has_records s5)) [
                                  | inr (e, t, bad, other) ↦ ground (arith, r3, r4, r5, bad, other)
                                  | inl (books, s6, r6) ↦ ground (
                                    arith,
                                    r3,
                                    r4,
                                    r5,
                                    r6,
                                    restore_rows-Safe uuid4 inp now records rooms bookcases sections
                                        shelves books s6,
                                  )
                                ]
                        ]
                ]
        ]

  import_rows-Safe : Safe (import_rows uuid4 inp now)
  unfolding import_rows import_records import_rooms
  import_rows-Safe s =
      elim (safe-Ends (import_records uuid4 inp now) s (import_records-Safe uuid4 inp now s)) [
        | inr (e, t, bad, other) ↦ ground (arith, bad, other)
        | inl (records, s1, r1) ↦
            elim (safe-Ends (import_rooms uuid4 inp now) s1 (import_rooms-Safe uuid4 inp now s1)) [
              | inr (e, t, bad, other) ↦ ground (arith, r1, bad, other)
              | inl (rooms, s2, r2) ↦
                  let has_rooms = λ (k : ℕ).
                    covers uuid4 inp now (λ (r : ImportRoomItem). r.id)
                      (find_room inp.library_id now) (add_room inp.library_id now) inp.rooms s1
                      {out = rooms} k r2 in
                  let has_records = λ (k : ℕ).
                    covers uuid4 inp now (λ (r : ImportRecordItem). r.id)
                      (find_record inp.library_id now) (add_record inp.library_id now)
                      inp.bibliographic_records s {out = records} k r1 in
                  let later = places_on records rooms has_records has_rooms s2 in
                  ground (arith, r1, r2, later)
            ]
      ]

-- A backup with a reference to a row that it does not have is refused with a value error, and nothing is
-- written.
pub import_full_library-unsound :
    (uuid4 : ℕ → ℕ) (inp : ImportFullLibraryInput) (now : ℕ) (s : Session)
    → (IsSound inp → ⊥)
    → import_full_library uuid4 inp now s ≡ (err value_error, s)
unfolding import_full_library
import_full_library-unsound uuid4 inp now s bad =
    elim (validate_referential_integrity-IsSound inp s) [
      | inl refused ↦ ground (arith, refused)
      | inr (passed, sound) ↦ absurd (bad sound)
    ]

-- An import never fails for an id that it does not have: a reference that the check lets through is found in
-- the map of the rows that were imported before.
pub import_full_library-no_key_error :
    (uuid4 : ℕ → ℕ) (inp : ImportFullLibraryInput) (now : ℕ) (s : Session)
    → (import_full_library uuid4 inp now s).0 ≢ err key_error
unfolding import_full_library
import_full_library-no_key_error uuid4 inp now s bad =
    elim (validate_referential_integrity-IsSound inp s) [
      | inl refused ↦ absurd (ground (arith, refused, bad))
      | inr (passed, sound) ↦
          let fine = import_rows-Safe uuid4 inp now sound s in
          let same : (import_rows uuid4 inp now s).0 ≡ err key_error =
            ground (arith, passed, bad) in
          absurd (ground (arith, ap is_key_error same, fine))
    ]

-- ===== src/Places/Life/Moves.antt =====
-- Updates, which may move a bookcase, a section or a shelf, keep the order of the places.
use jinbocho_catalog_v.Base.{ℕ, ◌≡◌, refl, Option, none, some, inl, inr, arith}
use jinbocho_catalog_v.Base.Table
use jinbocho_catalog_v.Places.State.{Bookcase, Section, Shelf, Places}
use jinbocho_catalog_v.Places.RoomRepo
use jinbocho_catalog_v.Places.BookcaseRepo
use jinbocho_catalog_v.Places.BookcaseRepo.{bookcase_by_id}
use jinbocho_catalog_v.Places.SectionRepo
use jinbocho_catalog_v.Places.ShelfRepo
use jinbocho_catalog_v.Exec.{ok}
use jinbocho_catalog_v.Places.Access.{
  get_bookcase_for_library, get_section_for_library, get_shelf_for_library,
}
use jinbocho_catalog_v.Places.Update.{
  UpdateRoomInput, UpdateBookcaseInput, UpdateSectionInput, UpdateShelfInput, update_room,
  update_bookcase, update_section, update_shelf, check_given, changed_room, changed_bookcase,
  changed_section, changed_shelf,
}
use jinbocho_catalog_v.Places.Guards.{
  get_room-Answers, get_bookcase-Answers, get_section-Answers, get_shelf-Answers,
}
use jinbocho_catalog_v.Places.Invariant.{IsPlaced}
use jinbocho_catalog_v.Places.Life.Creates.{section_saved, shelf_saved, bookcase_saved, room_saved}

module _ (s : Places) (h : IsPlaced s) where
  -- The room that a bookcase is in after an update.
  bookcase_moved :
      (asked : Option ℕ) (inp : UpdateBookcaseInput) (now : ℕ) {b : Bookcase}
      → inp.room_id ≡ asked
      → get_bookcase_for_library inp.bookcase_id inp.library_id s ≡ (ok b, s)
      → bookcase_by_id inp.bookcase_id s.bookcases ≡ some b
      → b.library_id ≡ inp.library_id
      → IsPlaced (update_bookcase inp now s).1
  unfolding update_bookcase check_given
  bookcase_moved none inp now {b} e out there own =
      let key = Table.get-id (λ (b : Bookcase). b.id) inp.bookcase_id s.bookcases there in
      let (room, found, lib) = h.housed inp.bookcase_id b there in
      let wrote : (update_bookcase inp now s).1
          ≡ (BookcaseRepo.save (changed_bookcase inp now b) s).1 =
        ground (arith, out, e) in
      let stays : (changed_bookcase inp now b).room_id ≡ b.room_id = ground (arith, e) in
      rw wrote (
        bookcase_saved s h (changed_bookcase inp now b) (room, rw stays found, lib)
          (λ old f. ground (arith, key, f, there)))
  bookcase_moved (some k) inp now {b} e out there own =
      let key = Table.get-id (λ (b : Bookcase). b.id) inp.bookcase_id s.bookcases there in
      elim (get_room-Answers s k inp.library_id) [
        | inl (bad, refused) ↦
            let same : (update_bookcase inp now s).1 ≡ s = ground (arith, out, e, refused) in
            rw same h
        | inr (room, passed, (found, lib)) ↦
            let wrote : (update_bookcase inp now s).1
                ≡ (BookcaseRepo.save (changed_bookcase inp now b) s).1 =
              ground (arith, out, e, passed) in
            let moves : (changed_bookcase inp now b).room_id ≡ k = ground (arith, e) in
            rw wrote (
              bookcase_saved s h (changed_bookcase inp now b)
                (room, rw moves found, ground (arith, lib, own))
                (λ old f. ground (arith, key, f, there)))
      ]

  pub update_bookcase-IsPlaced :
      (inp : UpdateBookcaseInput) (now : ℕ) → IsPlaced (update_bookcase inp now s).1
  unfolding update_bookcase
  update_bookcase-IsPlaced inp now = elim (get_bookcase-Answers s inp.bookcase_id inp.library_id) [
    | inl (e, out) ↦ let same : (update_bookcase inp now s).1 ≡ s = ground (arith, out) in rw same h
    | inr (b, out, (there, own)) ↦ bookcase_moved inp.room_id inp now refl out there own
  ]

  section_moved :
      (asked : Option ℕ) (inp : UpdateSectionInput) (now : ℕ) {x : Section} {b : Bookcase}
      → inp.bookcase_id ≡ asked
      → get_section_for_library inp.section_id inp.library_id s ≡ (ok x, s)
      → bookcase_by_id x.bookcase_id s.bookcases ≡ some b
      → IsPlaced (update_section inp now s).1
  unfolding update_section check_given
  section_moved none inp now {x} {b} e out held =
      let wrote : (update_section inp now s).1
          ≡ (SectionRepo.save (changed_section inp now x) s).1 =
        ground (arith, out, e) in
      let stays : (changed_section inp now x).bookcase_id ≡ x.bookcase_id = ground (arith, e) in
      rw wrote (section_saved s h (changed_section inp now x) {b = b} (rw stays held))
  section_moved (some k) inp now {x} e out held = elim (get_bookcase-Answers s k inp.library_id) [
    | inl (bad, refused) ↦
        let same : (update_section inp now s).1 ≡ s = ground (arith, out, e, refused) in rw same h
    | inr (b, passed, (found, own)) ↦
        let wrote : (update_section inp now s).1
            ≡ (SectionRepo.save (changed_section inp now x) s).1 =
          ground (arith, out, e, passed) in
        let moves : (changed_section inp now x).bookcase_id ≡ k = ground (arith, e) in
        rw wrote (section_saved s h (changed_section inp now x) {b = b} (rw moves found))
  ]

  pub update_section-IsPlaced :
      (inp : UpdateSectionInput) (now : ℕ) → IsPlaced (update_section inp now s).1
  unfolding update_section
  update_section-IsPlaced inp now = elim (get_section-Answers s inp.section_id inp.library_id) [
    | inl (e, out) ↦ let same : (update_section inp now s).1 ≡ s = ground (arith, out) in rw same h
    | inr (x, out, (there, b, held, own)) ↦ section_moved inp.bookcase_id inp now refl out held
  ]

  shelf_moved :
      (asked : Option ℕ) (inp : UpdateShelfInput) (now : ℕ) {x : Shelf} {y : Section}
      → inp.section_id ≡ asked
      → get_shelf_for_library inp.shelf_id inp.library_id s ≡ (ok x, s)
      → SectionRepo.section_by_id x.section_id s.sections ≡ some y
      → IsPlaced (update_shelf inp now s).1
  unfolding update_shelf check_given
  shelf_moved none inp now {x} {y} e out held =
      let wrote : (update_shelf inp now s).1 ≡ (ShelfRepo.save (changed_shelf inp now x) s).1 =
        ground (arith, out, e) in
      let stays : (changed_shelf inp now x).section_id ≡ x.section_id = ground (arith, e) in
      rw wrote (shelf_saved s h (changed_shelf inp now x) {y = y} (rw stays held))
  shelf_moved (some k) inp now {x} e out held = elim (get_section-Answers s k inp.library_id) [
    | inl (bad, refused) ↦
        let same : (update_shelf inp now s).1 ≡ s = ground (arith, out, e, refused) in rw same h
    | inr (y, passed, (found, b, there, own)) ↦
        let wrote : (update_shelf inp now s).1 ≡ (ShelfRepo.save (changed_shelf inp now x) s).1 =
          ground (arith, out, e, passed) in
        let moves : (changed_shelf inp now x).section_id ≡ k = ground (arith, e) in
        rw wrote (shelf_saved s h (changed_shelf inp now x) {y = y} (rw moves found))
  ]

  pub update_shelf-IsPlaced :
      (inp : UpdateShelfInput) (now : ℕ) → IsPlaced (update_shelf inp now s).1
  unfolding update_shelf
  update_shelf-IsPlaced inp now = elim (get_shelf-Answers s inp.shelf_id inp.library_id) [
    | inl (e, out) ↦ let same : (update_shelf inp now s).1 ≡ s = ground (arith, out) in rw same h
    | inr (x, out, (there, y, held, b, stands, own)) ↦
        shelf_moved inp.section_id inp now refl out held
  ]

  pub update_room-IsPlaced : (inp : UpdateRoomInput) (now : ℕ) → IsPlaced (update_room inp now s).1
  unfolding update_room
  update_room-IsPlaced inp now = elim (get_room-Answers s inp.room_id inp.library_id) [
    | inl (e, out) ↦ let same : (update_room inp now s).1 ≡ s = ground (arith, out) in rw same h
    | inr (r, out, own) ↦
        let wrote : (update_room inp now s).1 ≡ (RoomRepo.save (changed_room inp now r) s).1 =
          ground (arith, out) in
        rw wrote (room_saved s h (changed_room inp now r))
  ]

-- ===== src/Places/Life/Creates.antt =====
-- What is saved to the places, and every new place, keeps their order.
use jinbocho_catalog_v.Base.{ℕ, ◌≡◌, none, some, inl, inr, arith}
use jinbocho_catalog_v.Places.State.{Room, Bookcase, Section, Shelf, Places}
use jinbocho_catalog_v.Places.RoomRepo
use jinbocho_catalog_v.Places.BookcaseRepo
use jinbocho_catalog_v.Places.BookcaseRepo.{bookcase_by_id}
use jinbocho_catalog_v.Places.SectionRepo
use jinbocho_catalog_v.Places.ShelfRepo
use jinbocho_catalog_v.Places.Create.{
  CreateBookcaseInput, CreateSectionInput, CreateShelfInput, create_bookcase, create_section,
  create_shelf, new_bookcase, new_section, new_shelf,
}
use jinbocho_catalog_v.Places.Guards.{
  get_room-Answers, get_bookcase-Answers, get_section-Answers, save_section-writes,
  save_shelf-writes,
}
use jinbocho_catalog_v.Places.Invariant.{IsHoused, IsPlaced}
use jinbocho_catalog_v.Places.Invariant.Saves.{
  save_room-IsPlaced, save_bookcase-IsPlaced, save_section-IsPlaced, save_shelf-IsPlaced,
}

module _ (s : Places) (h : IsPlaced s) where
  pub section_saved :
      (x : Section) {b : Bookcase}
      → bookcase_by_id x.bookcase_id s.bookcases ≡ some b
      → IsPlaced (SectionRepo.save x s).1
  section_saved x there = elim (save_section-writes s x) [
    | inl same ↦ rw same h
    | inr (free, out) ↦ rw out (save_section-IsPlaced s h x there free)
  ]

  pub shelf_saved :
      (x : Shelf) {y : Section}
      → SectionRepo.section_by_id x.section_id s.sections ≡ some y
      → IsPlaced (ShelfRepo.save x s).1
  shelf_saved x there = elim (save_shelf-writes s x) [
    | inl same ↦ rw same h
    | inr (free, out) ↦ rw out (save_shelf-IsPlaced s h x there free)
  ]

  pub bookcase_saved :
      (b : Bookcase)
      → IsHoused s.rooms b
      → ((old : Bookcase)
          → bookcase_by_id b.id s.bookcases ≡ some old
          → old.library_id ≡ b.library_id)
      → IsPlaced (BookcaseRepo.save b s).1
  unfolding BookcaseRepo.save
  bookcase_saved b housed kept = save_bookcase-IsPlaced s h b housed kept

  pub room_saved : (r : Room) → IsPlaced (RoomRepo.save r s).1
  unfolding RoomRepo.save
  room_saved r = save_room-IsPlaced s h r

  pub create_bookcase-IsPlaced :
      (inp : CreateBookcaseInput) (k now : ℕ)
      → bookcase_by_id k s.bookcases ≡ none
      → IsPlaced (create_bookcase inp k now s).1
  unfolding create_bookcase
  create_bookcase-IsPlaced inp k now fresh = elim (get_room-Answers s inp.room_id inp.library_id) [
    | inl (e, out) ↦
        let same : (create_bookcase inp k now s).1 ≡ s = ground (arith, out) in rw same h
    | inr (room, out, (there, own)) ↦
        let wrote : (create_bookcase inp k now s).1
            ≡ (BookcaseRepo.save (new_bookcase inp k now) s).1 =
          ground (arith, out) in
        rw wrote (
          bookcase_saved (new_bookcase inp k now) (room, there, own)
            (λ old found. absurd (ground (arith, found, fresh))))
  ]

  pub create_section-IsPlaced :
      (inp : CreateSectionInput) (k now : ℕ) → IsPlaced (create_section inp k now s).1
  unfolding create_section
  create_section-IsPlaced inp k now = elim (get_bookcase-Answers s inp.bookcase_id inp.library_id) [
    | inl (e, out) ↦
        let same : (create_section inp k now s).1 ≡ s = ground (arith, out) in rw same h
    | inr (b, out, (there, own)) ↦
        let wrote : (create_section inp k now s).1
            ≡ (SectionRepo.save (new_section inp k now) s).1 =
          ground (arith, out) in
        rw wrote (section_saved (new_section inp k now) there)
  ]

  pub create_shelf-IsPlaced :
      (inp : CreateShelfInput) (k now : ℕ) → IsPlaced (create_shelf inp k now s).1
  unfolding create_shelf
  create_shelf-IsPlaced inp k now = elim (get_section-Answers s inp.section_id inp.library_id) [
    | inl (e, out) ↦ let same : (create_shelf inp k now s).1 ≡ s = ground (arith, out) in rw same h
    | inr (x, out, (there, b, held, own)) ↦
        let wrote : (create_shelf inp k now s).1 ≡ (ShelfRepo.save (new_shelf inp k now) s).1 =
          ground (arith, out) in
        rw wrote (shelf_saved (new_shelf inp k now) there)
  ]

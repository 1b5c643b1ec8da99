-- ===== src/Places/Invariant.antt =====
-- How the places of a library hang together, and what each save needs to keep it so.
pub mod Saves
use jinbocho_catalog_v.Base.{
  ℕ, ◌≡◌, refl, Bool, true, false, Option, none, some, List, [], ◌∷◌, inl, inr, arith, ◌==◌, ◌&&◌,
  not, Bool-cases, Option-cases,
}
use jinbocho_catalog_v.Base.Table
use jinbocho_catalog_v.Places.State.{Room, Bookcase, Section, Shelf, Places}
use jinbocho_catalog_v.Places.RoomRepo.{room_by_id}
use jinbocho_catalog_v.Places.BookcaseRepo.{bookcase_by_id}
use jinbocho_catalog_v.Places.SectionRepo.{section_by_id}
use jinbocho_catalog_v.Places.ShelfRepo.{shelf_by_id}

-- A room of the library with the id.
abbrev pub IsHoused : List Room → Bookcase → Type 0
IsHoused rooms b =
    (r : Room) × (room_by_id b.room_id rooms ≡ some r) × (r.library_id ≡ b.library_id)

-- Each bookcase stands in a room of its own library, each section in a bookcase, each shelf in a section;
-- no bookcase has two sections with one index, and no section two shelves.
pub record IsPlaced (p : Places) : Type 0 where
  pub housed : (k : ℕ) (b : Bookcase) → bookcase_by_id k p.bookcases ≡ some b → IsHoused p.rooms b
  pub held :
      (k : ℕ) (x : Section)
      → section_by_id k p.sections ≡ some x
      → (b : Bookcase) × (bookcase_by_id x.bookcase_id p.bookcases ≡ some b)
  pub shelved :
      (k : ℕ) (x : Shelf)
      → shelf_by_id k p.shelves ≡ some x
      → (y : Section) × (section_by_id x.section_id p.sections ≡ some y)
  pub one_section :
      (j k : ℕ) (x y : Section)
      → section_by_id j p.sections ≡ some x
      → section_by_id k p.sections ≡ some y
      → x.bookcase_id ≡ y.bookcase_id
      → x.section_index ≡ y.section_index
      → j ≡ k
  pub one_shelf :
      (j k : ℕ) (x y : Shelf)
      → shelf_by_id j p.shelves ≡ some x
      → shelf_by_id k p.shelves ≡ some y
      → x.section_id ≡ y.section_id
      → x.shelf_index ≡ y.shelf_index
      → j ≡ k

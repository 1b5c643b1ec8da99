-- ===== src/Places/Update.antt =====
-- The `update.py` files of app/application/use_cases/location.
use jinbocho_catalog_v.Base.{ℕ, String, Option, none, some, or_else, or_keep}
use jinbocho_catalog_v.Exec.{Exec, pure, ◌>>=◌, ◌>>◌}
use jinbocho_catalog_v.Places.State.{Room, Bookcase, Section, Shelf, Places}
use jinbocho_catalog_v.Places.RoomRepo
use jinbocho_catalog_v.Places.BookcaseRepo
use jinbocho_catalog_v.Places.SectionRepo
use jinbocho_catalog_v.Places.ShelfRepo
use jinbocho_catalog_v.Places.Access.{
  get_room_for_library, get_bookcase_for_library, get_section_for_library, get_shelf_for_library,
}

pub record UpdateRoomInput : Type 0 where
  pub room_id : ℕ
  pub library_id : ℕ
  pub name : Option String
  pub description : Option String

pub record UpdateBookcaseInput : Type 0 where
  pub bookcase_id : ℕ
  pub library_id : ℕ
  pub room_id : Option ℕ
  pub name : Option String
  pub description : Option String
  pub type : Option String
  pub notes : Option String
  pub image_url : Option String

pub record UpdateSectionInput : Type 0 where
  pub section_id : ℕ
  pub library_id : ℕ
  pub bookcase_id : Option ℕ
  pub section_index : Option ℕ
  pub label : Option String

pub record UpdateShelfInput : Type 0 where
  pub shelf_id : ℕ
  pub library_id : ℕ
  pub section_id : Option ℕ
  pub shelf_index : Option ℕ
  pub notes : Option String

abbrev pub changed_room : UpdateRoomInput → ℕ → Room → Room
changed_room inp now room = record room {
  name = or_else inp.name room.name;
  description = or_keep inp.description room.description;
  updated_at = now;
}

abbrev pub changed_bookcase : UpdateBookcaseInput → ℕ → Bookcase → Bookcase
changed_bookcase inp now bookcase = record bookcase {
  room_id = or_else inp.room_id bookcase.room_id;
  name = or_else inp.name bookcase.name;
  description = or_keep inp.description bookcase.description;
  type = or_keep inp.type bookcase.type;
  notes = or_keep inp.notes bookcase.notes;
  image_url = or_keep inp.image_url bookcase.image_url;
  updated_at = now;
}

abbrev pub changed_section : UpdateSectionInput → ℕ → Section → Section
changed_section inp now section = record section {
  bookcase_id = or_else inp.bookcase_id section.bookcase_id;
  section_index = or_else inp.section_index section.section_index;
  label = or_keep inp.label section.label;
  updated_at = now;
}

abbrev pub changed_shelf : UpdateShelfInput → ℕ → Shelf → Shelf
changed_shelf inp now shelf = record shelf {
  section_id = or_else inp.section_id shelf.section_id;
  shelf_index = or_else inp.shelf_index shelf.shelf_index;
  notes = or_keep inp.notes shelf.notes;
  updated_at = now;
}

-- `if inp.room_id is not None: await _get_room_for_library(...)`, and so for the others
unfoldable pub check_given : {A : Type 0} → Option ℕ → (ℕ → Exec Places A) → Exec Places (Unit {0})
check_given none check = pure tt
check_given (some k) check = do check k; pure tt

unfoldable pub update_room : UpdateRoomInput → ℕ → Exec Places Room
unfolding get_room_for_library RoomRepo.save
update_room inp now = do
  room ← get_room_for_library inp.room_id inp.library_id
  RoomRepo.save (changed_room inp now room)

unfoldable pub update_bookcase : UpdateBookcaseInput → ℕ → Exec Places Bookcase
unfolding get_room_for_library get_bookcase_for_library check_given BookcaseRepo.save
update_bookcase inp now = do
  bookcase ← get_bookcase_for_library inp.bookcase_id inp.library_id
  check_given inp.room_id (λ k. get_room_for_library k inp.library_id)
  BookcaseRepo.save (changed_bookcase inp now bookcase)

unfoldable pub update_section : UpdateSectionInput → ℕ → Exec Places Section
unfolding get_bookcase_for_library get_section_for_library check_given SectionRepo.save
update_section inp now = do
  section ← get_section_for_library inp.section_id inp.library_id
  check_given inp.bookcase_id (λ k. get_bookcase_for_library k inp.library_id)
  SectionRepo.save (changed_section inp now section)

unfoldable pub update_shelf : UpdateShelfInput → ℕ → Exec Places Shelf
unfolding get_section_for_library get_shelf_for_library check_given ShelfRepo.save
update_shelf inp now = do
  shelf ← get_shelf_for_library inp.shelf_id inp.library_id
  check_given inp.section_id (λ k. get_section_for_library k inp.library_id)
  ShelfRepo.save (changed_shelf inp now shelf)

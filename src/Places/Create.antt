-- ===== src/Places/Create.antt =====
-- The `create.py` files of app/application/use_cases/location. The id of the new row is an argument.
use jinbocho_catalog_v.Base.{ℕ, String, Option}
use jinbocho_catalog_v.Exec.{Exec, ◌>>◌}
use jinbocho_catalog_v.Places.State.{Room, Bookcase, Section, Shelf, Places}
use jinbocho_catalog_v.Places.RoomRepo
use jinbocho_catalog_v.Places.BookcaseRepo
use jinbocho_catalog_v.Places.SectionRepo
use jinbocho_catalog_v.Places.ShelfRepo
use jinbocho_catalog_v.Places.Access.{
  get_room_for_library, get_bookcase_for_library, get_section_for_library,
}

pub record CreateRoomInput : Type 0 where
  pub library_id : ℕ
  pub name : String
  pub description : Option String

pub record CreateBookcaseInput : Type 0 where
  pub library_id : ℕ
  pub room_id : ℕ
  pub name : String
  pub description : Option String
  pub type : Option String
  pub notes : Option String
  pub image_url : Option String

pub record CreateSectionInput : Type 0 where
  pub library_id : ℕ
  pub bookcase_id : ℕ
  pub section_index : ℕ
  pub label : Option String

pub record CreateShelfInput : Type 0 where
  pub library_id : ℕ
  pub section_id : ℕ
  pub shelf_index : ℕ
  pub notes : Option String

abbrev pub new_room : CreateRoomInput → (new_id now : ℕ) → Room
new_room inp new_id now = record {
  id = new_id;
  library_id = inp.library_id;
  name = inp.name;
  description = inp.description;
  created_at = now;
  updated_at = now;
}

abbrev pub new_bookcase : CreateBookcaseInput → (new_id now : ℕ) → Bookcase
new_bookcase inp new_id now = record {
  id = new_id;
  library_id = inp.library_id;
  room_id = inp.room_id;
  name = inp.name;
  description = inp.description;
  type = inp.type;
  notes = inp.notes;
  image_url = inp.image_url;
  created_at = now;
  updated_at = now;
}

abbrev pub new_section : CreateSectionInput → (new_id now : ℕ) → Section
new_section inp new_id now = record {
  id = new_id;
  bookcase_id = inp.bookcase_id;
  section_index = inp.section_index;
  label = inp.label;
  created_at = now;
  updated_at = now;
}

abbrev pub new_shelf : CreateShelfInput → (new_id now : ℕ) → Shelf
new_shelf inp new_id now = record {
  id = new_id;
  section_id = inp.section_id;
  shelf_index = inp.shelf_index;
  notes = inp.notes;
  created_at = now;
  updated_at = now;
}

unfoldable pub create_room : CreateRoomInput → (new_id now : ℕ) → Exec Places Room
unfolding RoomRepo.save
create_room inp new_id now = RoomRepo.save (new_room inp new_id now)

unfoldable pub create_bookcase : CreateBookcaseInput → (new_id now : ℕ) → Exec Places Bookcase
unfolding get_room_for_library BookcaseRepo.save
create_bookcase inp new_id now = do
  get_room_for_library inp.room_id inp.library_id
  BookcaseRepo.save (new_bookcase inp new_id now)

unfoldable pub create_section : CreateSectionInput → (new_id now : ℕ) → Exec Places Section
unfolding get_bookcase_for_library SectionRepo.save
create_section inp new_id now = do
  get_bookcase_for_library inp.bookcase_id inp.library_id
  SectionRepo.save (new_section inp new_id now)

unfoldable pub create_shelf : CreateShelfInput → (new_id now : ℕ) → Exec Places Shelf
unfolding get_section_for_library ShelfRepo.save
create_shelf inp new_id now = do
  get_section_for_library inp.section_id inp.library_id
  ShelfRepo.save (new_shelf inp new_id now)

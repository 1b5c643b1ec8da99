-- ===== src/Places/Access.antt =====
-- The guards of app/application/use_cases/location/{room,bookcase,section,shelf}/read.py: a bookcase is
-- reached by its own library, a section and a shelf by that of their bookcase.
use jinbocho_catalog_v.Base.{ℕ, not, ◌==◌}
use jinbocho_catalog_v.Domain.Errors.{lookup_error, permission_error}
use jinbocho_catalog_v.Exec.{Exec, pure, or_raise, raise_if, ◌>>=◌, ◌>>◌}
use jinbocho_catalog_v.Places.State.{Room, Bookcase, Section, Shelf, Places}
use jinbocho_catalog_v.Places.RoomRepo
use jinbocho_catalog_v.Places.BookcaseRepo
use jinbocho_catalog_v.Places.SectionRepo
use jinbocho_catalog_v.Places.ShelfRepo

unfoldable pub get_room_for_library : (room_id library_id : ℕ) → Exec Places Room
unfolding RoomRepo.find_by_id
get_room_for_library room_id library_id = do
  found ← RoomRepo.find_by_id room_id
  room ← or_raise found lookup_error
  raise_if (not (room.library_id == library_id)) permission_error
  pure room

unfoldable pub get_bookcase_for_library : (bookcase_id library_id : ℕ) → Exec Places Bookcase
unfolding BookcaseRepo.find_by_id
get_bookcase_for_library bookcase_id library_id = do
  found ← BookcaseRepo.find_by_id bookcase_id
  bookcase ← or_raise found lookup_error
  raise_if (not (bookcase.library_id == library_id)) permission_error
  pure bookcase

unfoldable pub get_section_for_library : (section_id library_id : ℕ) → Exec Places Section
unfolding SectionRepo.find_by_id get_bookcase_for_library
get_section_for_library section_id library_id = do
  found ← SectionRepo.find_by_id section_id
  section ← or_raise found lookup_error
  get_bookcase_for_library section.bookcase_id library_id
  pure section

unfoldable pub get_shelf_for_library : (shelf_id library_id : ℕ) → Exec Places Shelf
unfolding ShelfRepo.find_by_id get_section_for_library
get_shelf_for_library shelf_id library_id = do
  found ← ShelfRepo.find_by_id shelf_id
  shelf ← or_raise found lookup_error
  get_section_for_library shelf.section_id library_id
  pure shelf

-- ===== src/Places/Position.antt =====
-- app/application/services/position_service.py: a position is a room, a bookcase in it, a section of that
-- and a shelf of that.
pub mod Sound
use jinbocho_catalog_v.Base.{ℕ, Bool, true, Option, none, some, not, ◌==◌, ◌||◌}
use jinbocho_catalog_v.Domain.Errors.{lookup_error, permission_error}
use jinbocho_catalog_v.Exec.{Exec, pure, or_raise, raise_if, ◌>>=◌, ◌>>◌}
use jinbocho_catalog_v.Places.State.{Room, Bookcase, Section, Shelf, Places}
use jinbocho_catalog_v.Places.RoomRepo
use jinbocho_catalog_v.Places.BookcaseRepo
use jinbocho_catalog_v.Places.SectionRepo
use jinbocho_catalog_v.Places.ShelfRepo

pub record ResolvedPosition : Type 0 where
  pub room : Room
  pub bookcase_id : ℕ
  pub section_id : ℕ
  pub shelf_id : ℕ

-- `not section or section.bookcase_id != bookcase_id`
abbrev pub is_elsewhere : Option Section → ℕ → Bool
is_elsewhere none bookcase_id = true
is_elsewhere (some x) bookcase_id = not (x.bookcase_id == bookcase_id)

-- `not shelf or shelf.section_id != section_id`
abbrev pub is_off : Option Shelf → ℕ → Bool
is_off none section_id = true
is_off (some x) section_id = not (x.section_id == section_id)

unfoldable pub validate :
    (library_id room_id bookcase_id section_id shelf_id : ℕ) → Exec Places ResolvedPosition
unfolding RoomRepo.find_by_id BookcaseRepo.find_by_id SectionRepo.find_by_id ShelfRepo.find_by_id
validate library_id room_id bookcase_id section_id shelf_id = do
  found_room ← RoomRepo.find_by_id room_id
  room ← or_raise found_room lookup_error
  raise_if (not (room.library_id == library_id)) permission_error
  found_bookcase ← BookcaseRepo.find_by_id bookcase_id
  bookcase ← or_raise found_bookcase lookup_error
  raise_if (not (bookcase.library_id == library_id)) permission_error
  raise_if (not (bookcase.room_id == room_id)) lookup_error
  section ← SectionRepo.find_by_id section_id
  raise_if (is_elsewhere section bookcase_id) lookup_error
  shelf ← ShelfRepo.find_by_id shelf_id
  raise_if (is_off shelf section_id) lookup_error
  pure (record {
    room = room;
    bookcase_id = bookcase_id;
    section_id = section_id;
    shelf_id = shelf_id;
  })

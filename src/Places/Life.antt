-- ===== src/Places/Life.antt =====
-- Every use case that changes the places, and the states that sequences of them reach.
pub mod Creates
pub mod Moves
pub mod Steps
use jinbocho_catalog_v.Base.{ℕ, ◌≡◌, none, []}
use jinbocho_catalog_v.Places.State.{Places}
use jinbocho_catalog_v.Places.BookcaseRepo.{bookcase_by_id}
use jinbocho_catalog_v.Places.Create.{
  CreateRoomInput, CreateBookcaseInput, CreateSectionInput, CreateShelfInput, create_room,
  create_bookcase, create_section, create_shelf,
}
use jinbocho_catalog_v.Places.Update.{
  UpdateRoomInput, UpdateBookcaseInput, UpdateSectionInput, UpdateShelfInput, update_room,
  update_bookcase, update_section, update_shelf,
}

pub data Change : Type 0 where
  room_created : CreateRoomInput → (new_id now : ℕ) → Change
  bookcase_created : CreateBookcaseInput → (new_id now : ℕ) → Change
  section_created : CreateSectionInput → (new_id now : ℕ) → Change
  shelf_created : CreateShelfInput → (new_id now : ℕ) → Change
  room_updated : UpdateRoomInput → (now : ℕ) → Change
  bookcase_updated : UpdateBookcaseInput → (now : ℕ) → Change
  section_updated : UpdateSectionInput → (now : ℕ) → Change
  shelf_updated : UpdateShelfInput → (now : ℕ) → Change

-- The state after a call, whether it returns or raises.
unfoldable pub apply : Change → Places → Places
unfolding create_room create_bookcase create_section create_shelf update_room update_bookcase
    update_section update_shelf
apply (room_created inp new_id now) s = (create_room inp new_id now s).1
apply (bookcase_created inp new_id now) s = (create_bookcase inp new_id now s).1
apply (section_created inp new_id now) s = (create_section inp new_id now s).1
apply (shelf_created inp new_id now) s = (create_shelf inp new_id now s).1
apply (room_updated inp now) s = (update_room inp now s).1
apply (bookcase_updated inp now) s = (update_bookcase inp now s).1
apply (section_updated inp now) s = (update_section inp now s).1
apply (shelf_updated inp now) s = (update_shelf inp now s).1

-- A new bookcase gets an id that no bookcase has.
abbrev pub IsFresh : Change → Places → Type 0
IsFresh (bookcase_created inp new_id now) s = bookcase_by_id new_id s.bookcases ≡ none
IsFresh _ s = Unit

abbrev pub no_places : Places
no_places = record { rooms = []; bookcases = []; sections = []; shelves = [] }

-- What a session reaches from no places at all.
pub data Reachable : Places → Type 0 where
  start : Reachable no_places
  step : (s : Places) (c : Change) → IsFresh c s → Reachable s → Reachable (apply c s)

-- ===== src/Places/Life/Steps.antt =====
-- No use case, and so no sequence of them, breaks the order of the places.
use jinbocho_catalog_v.Base.{arith}
use jinbocho_catalog_v.Places.State.{Places}
use jinbocho_catalog_v.Places.Create.{create_room, new_room}
use jinbocho_catalog_v.Places.Invariant.{IsPlaced}
use jinbocho_catalog_v.Places.Life.Creates.{
  room_saved, create_bookcase-IsPlaced, create_section-IsPlaced, create_shelf-IsPlaced,
}
use jinbocho_catalog_v.Places.Life.Moves.{
  update_room-IsPlaced, update_bookcase-IsPlaced, update_section-IsPlaced, update_shelf-IsPlaced,
}
use jinbocho_catalog_v.Places.Life.{
  Change, room_created, bookcase_created, section_created, shelf_created, room_updated,
  bookcase_updated, section_updated, shelf_updated, apply, IsFresh, Reachable, start, step,
}

apply-IsPlaced : (c : Change) (s : Places) → IsFresh c s → IsPlaced s → IsPlaced (apply c s)
unfolding apply create_room
apply-IsPlaced (room_created inp new_id now) s fresh h = room_saved s h (new_room inp new_id now)
apply-IsPlaced (bookcase_created inp new_id now) s fresh h =
    create_bookcase-IsPlaced s h inp new_id now fresh
apply-IsPlaced (section_created inp new_id now) s fresh h =
    create_section-IsPlaced s h inp new_id now
apply-IsPlaced (shelf_created inp new_id now) s fresh h = create_shelf-IsPlaced s h inp new_id now
apply-IsPlaced (room_updated inp now) s fresh h = update_room-IsPlaced s h inp now
apply-IsPlaced (bookcase_updated inp now) s fresh h = update_bookcase-IsPlaced s h inp now
apply-IsPlaced (section_updated inp now) s fresh h = update_section-IsPlaced s h inp now
apply-IsPlaced (shelf_updated inp now) s fresh h = update_shelf-IsPlaced s h inp now

-- Whatever rooms, bookcases, sections and shelves are created and updated, with or without errors, from no
-- places on, each bookcase stands in a room of its own library, each section in a bookcase and each shelf in
-- a section, and no bookcase has two sections with one index, nor a section two shelves, provided that new
-- bookcases get new ids.
pub Reachable-IsPlaced : (s : Places) → Reachable s → IsPlaced s
Reachable-IsPlaced _ start = record {
  housed = λ k b f. absurd (ground (arith, f));
  held = λ k x f. absurd (ground (arith, f));
  shelved = λ k x f. absurd (ground (arith, f));
  one_section = λ j k x y f g e i. absurd (ground (arith, f));
  one_shelf = λ j k x y f g e i. absurd (ground (arith, f));
}
Reachable-IsPlaced _ (step s c fresh r) = apply-IsPlaced c s fresh (Reachable-IsPlaced s r)

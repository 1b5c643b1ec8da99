-- ===== src/Places.antt =====
-- The places of a library: rooms, the bookcases in them, their sections, and their shelves.
pub mod State
pub mod RoomRepo
pub mod BookcaseRepo
pub mod SectionRepo
pub mod ShelfRepo
pub mod Access
pub mod Create
pub mod Update
pub mod Position
pub mod Invariant
pub mod Life
pub mod Guards

-- ===== src/Backup/Whole/Rooms.antt =====
-- The rooms of a backup, imported twice.
use jinbocho_catalog_v.Base.{
  ℕ, suc, ◌≡◌, Option, none, some, inl, inr, arith, ◌==◌, ◌≤◌, length, Bool-cases,
}
use jinbocho_catalog_v.Base.Table
use text.Mathlib.TextPositions.{eq_refl as str_eq_self}
use jinbocho_catalog_v.Exec.{ok}
use jinbocho_catalog_v.Places.State.{Room}
use jinbocho_catalog_v.Places.RoomRepo
use jinbocho_catalog_v.Places.RoomRepo.{room_by_id, has_name}
use jinbocho_catalog_v.Backup.Input.{ImportRoomItem, ImportFullLibraryInput}
use jinbocho_catalog_v.Backup.Session.{Session}
use jinbocho_catalog_v.Backup.Loop.{Imported, nothing_yet}
use jinbocho_catalog_v.Backup.Loop.Again
use jinbocho_catalog_v.Backup.Import.{find_room, add_room, restored_room}
use jinbocho_catalog_v.Backup.Whole.{import_rooms}

-- The ids that are still to be drawn are of no room.
abbrev pub AreUnused : (ℕ → ℕ) → Session → Type 0
AreUnused uuid4 s = (n : ℕ) → s.drawn ≤ n → room_by_id (uuid4 n) s.places.rooms ≡ none

abbrev pub id_of : Option Room → Option ℕ
id_of none = none
id_of (some r) = some r.id

-- The room that has the name of an item.
abbrev pub room_named : ℕ → ImportRoomItem → Session → Option ℕ
room_named lib i s = id_of (Table.find (has_name lib i.name) s.places.rooms)

module _ (uuid4 : ℕ → ℕ) (lib now : ℕ) (differ : (m n : ℕ) → uuid4 m ≡ uuid4 n → m ≡ n) where
  abbrev with_room : ImportRoomItem → Session → Session
  with_room i s = record s {
    places = record s.places {
      rooms = Table.insert (restored_room lib now i (uuid4 s.drawn)) s.places.rooms;
    };
    drawn = suc s.drawn;
  }

  add_room-with_room :
      (i : ImportRoomItem) (s : Session)
      → AreUnused uuid4 s
      → add_room lib now i (uuid4 s.drawn) (record s { drawn = suc s.drawn })
        ≡ (ok tt, with_room i s)
  unfolding add_room RoomRepo.save
  add_room-with_room i s unused = ground (
    arith,
    Table.save-absent (λ (r : Room). r.id) RoomRepo.assign (restored_room lib now i (uuid4 s.drawn))
        s.places.rooms (unused s.drawn (omega arith)),
  )

  with_room-AreUnused :
      (i : ImportRoomItem) (s : Session) → AreUnused uuid4 s → AreUnused uuid4 (with_room i s)
  with_room-AreUnused i s unused n later =
      let new = restored_room lib now i (uuid4 s.drawn) in
      let found = Table.find-insert (λ (r : Room). r.id == uuid4 n) new s.places.rooms in
      let before = unused n (omega arith) in
      elim (Bool-cases (uuid4 s.drawn == uuid4 n)) [
        | inl same ↦ absurd (ground (arith, differ s.drawn n, later))
        | inr apart ↦ ground (arith, found, before)
      ]

  find_room-room_named :
      (i : ImportRoomItem) (s : Session) → find_room lib now i s ≡ (ok (room_named lib i s), s)
  unfolding find_room RoomRepo.find_by_name
  find_room-room_named i s = ground arith

  -- The new room has the name of its item, so a search for that finds it, where it found none.
  with_room-hit :
      (i : ImportRoomItem) (s : Session)
      → room_named lib i s ≡ none
      → room_named lib i (with_room i s) ≡ some (uuid4 s.drawn)
  with_room-hit i s absent =
      let found =
        Table.find-insert (has_name lib i.name) (restored_room lib now i (uuid4 s.drawn))
          s.places.rooms in
      ground (arith, found, absent, str_eq_self i.name)

  with_room-Stays :
      (i : ImportRoomItem) (s : Session)
      → Again.Stays uuid4
          (λ (r : ImportRoomItem). r.id)
          (find_room lib now)
          (add_room lib now)
          (room_named lib)
          (AreUnused uuid4)
          s
          (with_room i s)
  with_room-Stays i s j x there =
      let found =
        Table.find-insert (has_name lib j.name) (restored_room lib now i (uuid4 s.drawn))
          s.places.rooms in
      ground (arith, found, there)

  rooms-IsSteady :
      Again.IsSteady uuid4
        (λ (r : ImportRoomItem). r.id)
        (find_room lib now)
        (add_room lib now)
        (room_named lib)
        (AreUnused uuid4)
  rooms-IsSteady = record {
    looks = find_room-room_named;
    adds = λ i s unused absent. (
      with_room i s,
      add_room-with_room i s unused,
      with_room-AreUnused i s unused,
      with_room-hit i s absent,
      with_room-Stays i s,
    );
  }

-- With new ids that differ from each other and from those of every room, the rooms of a backup are imported
-- without an error, and importing them again, at any later time, writes nothing, gives the same ids, and
-- counts every room as a duplicate.
pub import_rooms-again :
    (uuid4 : ℕ → ℕ) (inp : ImportFullLibraryInput) (now later : ℕ) (s : Session)
    → ((m n : ℕ) → uuid4 m ≡ uuid4 n → m ≡ n)
    → AreUnused uuid4 s
    → (first : Imported) × (t : Session) × (import_rooms uuid4 inp now s ≡ (ok first, t))
      × (import_rooms uuid4 inp later t
          ≡ (ok (record { ids = first.ids; imported = 0; deduped = length inp.rooms }), t))
unfolding import_rooms
import_rooms-again uuid4 inp now later s differ unused =
    let lib = inp.library_id in
    let (first, t, ran, unused', stays, ids, all) =
      Again.run uuid4 (λ (r : ImportRoomItem). r.id) (find_room lib now) (add_room lib now)
        (room_named lib) (AreUnused uuid4) (rooms-IsSteady uuid4 lib now differ) inp.rooms
        nothing_yet s unused in
    let again =
      Again.run_again uuid4 (λ (r : ImportRoomItem). r.id) (find_room lib later)
        (add_room lib later) (room_named lib) (AreUnused uuid4)
        (rooms-IsSteady uuid4 lib later differ) inp.rooms nothing_yet t all in
    (first, t, ran, ground (arith, again, ids))

-- ===== src/Places/RoomRepo.antt =====
-- app/infrastructure/repositories/room_repository.py, without the listing and the deletions.
use jinbocho_catalog_v.Base.{ℕ, String, Bool, Option, none, some, List, ◌==◌, ◌&&◌, str_eq}
use jinbocho_catalog_v.Base.Table
use jinbocho_catalog_v.Places.State.{Room, Places}
use jinbocho_catalog_v.Exec.{Exec, pure, gets, modify, ◌>>=◌, ◌>>◌}

abbrev pub room_by_id : ℕ → List Room → Option Room
room_by_id k rows = Table.get (λ (r : Room). r.id) k rows

abbrev pub has_name : ℕ → String → Room → Bool
has_name library_id name r = r.library_id == library_id && str_eq r.name name

unfoldable pub find_by_id : ℕ → Exec Places (Option Room)
find_by_id k = gets (λ s. room_by_id k s.rooms)

unfoldable pub find_by_name : ℕ → String → Exec Places (Option Room)
find_by_name library_id name = gets (λ s. Table.find (has_name library_id name) s.rooms)

-- What `save` assigns to a row that is there.
abbrev pub assign : Room → Room → Room
assign old new = record new { library_id = old.library_id; created_at = old.created_at }

abbrev pub save_rows : Room → List Room → List Room
save_rows r rows = Table.save (λ (x : Room). x.id) assign r rows

-- The saved entity is read back.
unfoldable pub save : Room → Exec Places Room
save r = do
  old ← gets (λ s. room_by_id r.id s.rooms)
  modify (λ s. record s { rooms = save_rows r s.rooms })
  pure (elim old [ none ↦ r | some row ↦ assign row r ])

-- ===== src/Places/BookcaseRepo.antt =====
-- app/infrastructure/repositories/bookcase_repository.py, without the listing and the deletions.
use jinbocho_catalog_v.Base.{ℕ, String, Bool, Option, none, some, List, ◌==◌, ◌&&◌, str_eq}
use jinbocho_catalog_v.Base.Table
use jinbocho_catalog_v.Places.State.{Bookcase, Places}
use jinbocho_catalog_v.Exec.{Exec, pure, gets, modify, ◌>>=◌, ◌>>◌}

abbrev pub bookcase_by_id : ℕ → List Bookcase → Option Bookcase
bookcase_by_id k rows = Table.get (λ (b : Bookcase). b.id) k rows

abbrev pub has_name : ℕ → String → Bookcase → Bool
has_name room_id name b = b.room_id == room_id && str_eq b.name name

unfoldable pub find_by_id : ℕ → Exec Places (Option Bookcase)
find_by_id k = gets (λ s. bookcase_by_id k s.bookcases)

unfoldable pub find_by_name : ℕ → String → Exec Places (Option Bookcase)
find_by_name room_id name = gets (λ s. Table.find (has_name room_id name) s.bookcases)

-- What `save` assigns to a row that is there.
abbrev pub assign : Bookcase → Bookcase → Bookcase
assign old new = record new { library_id = old.library_id; created_at = old.created_at }

abbrev pub save_rows : Bookcase → List Bookcase → List Bookcase
save_rows b rows = Table.save (λ (x : Bookcase). x.id) assign b rows

-- The saved entity is read back.
unfoldable pub save : Bookcase → Exec Places Bookcase
save b = do
  old ← gets (λ s. bookcase_by_id b.id s.bookcases)
  modify (λ s. record s { bookcases = save_rows b s.bookcases })
  pure (elim old [ none ↦ b | some row ↦ assign row b ])

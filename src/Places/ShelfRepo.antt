-- ===== src/Places/ShelfRepo.antt =====
-- app/infrastructure/repositories/shelf_repository.py, with the unique constraint on section_id and
-- shelf_index; without the listings and the deletion.
use jinbocho_catalog_v.Base.{ℕ, Bool, Option, none, some, List, not, ◌==◌, ◌&&◌}
use jinbocho_catalog_v.Base.Table
use jinbocho_catalog_v.Domain.Errors.{integrity_error}
use jinbocho_catalog_v.Places.State.{Shelf, Places}
use jinbocho_catalog_v.Exec.{Exec, pure, raise, gets, modify, ◌>>=◌, ◌>>◌}

abbrev pub shelf_by_id : ℕ → List Shelf → Option Shelf
shelf_by_id k rows = Table.get (λ (x : Shelf). x.id) k rows

abbrev pub has_index : ℕ → ℕ → Shelf → Bool
has_index section_id index x = x.section_id == section_id && x.shelf_index == index

unfoldable pub find_by_id : ℕ → Exec Places (Option Shelf)
find_by_id k = gets (λ s. shelf_by_id k s.shelves)

unfoldable pub find_by_index : ℕ → ℕ → Exec Places (Option Shelf)
find_by_index section_id index = gets (λ s. Table.find (has_index section_id index) s.shelves)

-- What `save` assigns to a row that is there.
abbrev pub assign : Shelf → Shelf → Shelf
assign old new = record new { created_at = old.created_at }

abbrev pub save_rows : Shelf → List Shelf → List Shelf
save_rows x rows = Table.save (λ (y : Shelf). y.id) assign x rows

-- Another row with the index.
abbrev pub is_clash : Shelf → Shelf → Bool
is_clash x y = has_index x.section_id x.shelf_index y && not (y.id == x.id)

abbrev pub clash : Shelf → List Shelf → Option Shelf
clash x rows = Table.find (is_clash x) rows

unfoldable pub save_checked : Option Shelf → Shelf → Exec Places Shelf
save_checked (some other) x = raise integrity_error
save_checked none x = do
  old ← gets (λ s. shelf_by_id x.id s.shelves)
  modify (λ s. record s { shelves = save_rows x s.shelves })
  pure (elim old [ none ↦ x | some row ↦ assign row x ])

-- The saved entity is read back.
unfoldable pub save : Shelf → Exec Places Shelf
unfolding save_checked
save x = do other ← gets (λ s. clash x s.shelves); save_checked other x

-- ===== src/Places/SectionRepo.antt =====
-- app/infrastructure/repositories/section_repository.py, with the unique constraint on bookcase_id and
-- section_index; without the listings and the deletion.
use jinbocho_catalog_v.Base.{ℕ, Bool, Option, none, some, List, not, ◌==◌, ◌&&◌}
use jinbocho_catalog_v.Base.Table
use jinbocho_catalog_v.Domain.Errors.{integrity_error}
use jinbocho_catalog_v.Places.State.{Section, Places}
use jinbocho_catalog_v.Exec.{Exec, pure, raise, gets, modify, ◌>>=◌, ◌>>◌}

abbrev pub section_by_id : ℕ → List Section → Option Section
section_by_id k rows = Table.get (λ (x : Section). x.id) k rows

abbrev pub has_index : ℕ → ℕ → Section → Bool
has_index bookcase_id index x = x.bookcase_id == bookcase_id && x.section_index == index

unfoldable pub find_by_id : ℕ → Exec Places (Option Section)
find_by_id k = gets (λ s. section_by_id k s.sections)

unfoldable pub find_by_index : ℕ → ℕ → Exec Places (Option Section)
find_by_index bookcase_id index = gets (λ s. Table.find (has_index bookcase_id index) s.sections)

-- What `save` assigns to a row that is there.
abbrev pub assign : Section → Section → Section
assign old new = record new { created_at = old.created_at }

abbrev pub save_rows : Section → List Section → List Section
save_rows x rows = Table.save (λ (y : Section). y.id) assign x rows

-- Another row with the index.
abbrev pub is_clash : Section → Section → Bool
is_clash x y = has_index x.bookcase_id x.section_index y && not (y.id == x.id)

abbrev pub clash : Section → List Section → Option Section
clash x rows = Table.find (is_clash x) rows

unfoldable pub save_checked : Option Section → Section → Exec Places Section
save_checked (some other) x = raise integrity_error
save_checked none x = do
  old ← gets (λ s. section_by_id x.id s.sections)
  modify (λ s. record s { sections = save_rows x s.sections })
  pure (elim old [ none ↦ x | some row ↦ assign row x ])

-- The saved entity is read back.
unfoldable pub save : Section → Exec Places Section
unfolding save_checked
save x = do other ← gets (λ s. clash x s.sections); save_checked other x

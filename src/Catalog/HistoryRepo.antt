-- ===== src/Catalog/HistoryRepo.antt =====
-- app/infrastructure/repositories/book_history_repository.py
use jinbocho_catalog_v.Base.{Bool, true, false, List, ◌==◌, ◌&&◌, is_some, if◌then◌else◌}
use jinbocho_catalog_v.Base.Table
use jinbocho_catalog_v.Domain.Book.{BookEventType, BookHistory}
use jinbocho_catalog_v.Catalog.State.{Catalog}
use jinbocho_catalog_v.Exec.{Exec, modify}

unfoldable pub save : BookHistory → Exec Catalog (Unit {0})
save row = modify (λ s. record s { history = Table.insert row s.history })

-- The values of two event types are different.
abbrev pub is_event : BookEventType → BookEventType → Bool
is_event BookEventType.created BookEventType.created = true
is_event BookEventType.metadata_updated BookEventType.metadata_updated = true
is_event BookEventType.position_changed BookEventType.position_changed = true
is_event BookEventType.reading_status_changed BookEventType.reading_status_changed = true
is_event BookEventType.deleted BookEventType.deleted = true
is_event _ _ = false

abbrev pub is_same_event : BookHistory → BookHistory → Bool
is_same_event x y =
    y.owned_book_id == x.owned_book_id
    && (is_event y.event_type x.event_type
        && (y.changed_by == x.changed_by && y.created_at == x.created_at))

-- The same entry, of an earlier restore, stays as it is. The id of a restored row is new.
abbrev pub restore_rows : BookHistory → List BookHistory → List BookHistory
restore_rows h rows =
    if is_some (Table.find (is_same_event h) rows) then rows else Table.insert h rows

unfoldable pub restore : BookHistory → Exec Catalog (Unit {0})
restore h = modify (λ s. record s { history = restore_rows h s.history })

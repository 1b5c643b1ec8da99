-- ===== src/Examples/Leaving.antt =====
-- A library leaves the service.
use jinbocho_catalog_v.Base.{◌≡◌, refl, none, [], ◌∷◌, length}
use jinbocho_catalog_v.Base.Table.{select}
use jinbocho_catalog_v.Domain.Errors.{integrity_error}
use jinbocho_catalog_v.Exec.{ok, err}
use jinbocho_catalog_v.Club.State.{BookClubCycleStatus}
use jinbocho_catalog_v.Backup.Deletion.{
  Service, DeleteLibraryDataOutput, LibraryRole, is_own_book, is_own_record, is_own_bookcase,
  is_own_room, is_own_member, delete_library_data,
}
use jinbocho_catalog_v.Backup.Deletion.Wiped.{delete_library_data-stuck, delete_library_data-wipes}
use jinbocho_catalog_v.Examples.{catalog}
use jinbocho_catalog_v.Examples.Restoring.{session}

abbrev service : Service
service = record {
  catalog = catalog;
  places = session.places;
  wishlist = [];
  cycles = [];
  proposals = [];
  votes = [];
  removed_members =
      (record {
        id = 7;
        library_id = 1;
        full_name = "Eve";
        email = "eve@example.org";
        role = LibraryRole.viewer;
        removed_at = 5;
      })
      ∷ [];
}

-- A cycle of the book club on the record of copy 10.
abbrev with_cycle : Service
with_cycle = record service {
  cycles =
      (record {
        id = 1;
        library_id = 1;
        bibliographic_record_id = 110;
        title = "Dune";
        created_by = 5;
        owned_book_id = none;
        status = BookClubCycleStatus.reading;
        reading_start = none;
        reading_end = none;
        created_at = 3;
      })
      ∷ [];
}

delete_library_data-stuck_example : (delete_library_data 1 with_cycle).0 ≡ err integrity_error
delete_library_data-stuck_example = delete_library_data-stuck 1 with_cycle refl

delete_library_data-wipes_example :
    let s' = (delete_library_data 1 service).1 in
    (out : DeleteLibraryDataOutput) × ((delete_library_data 1 service).0 ≡ ok out)
    × (select (is_own_book 1) s'.catalog.books ≡ [])
    × (select (is_own_record 1) s'.catalog.records ≡ [])
    × (select (is_own_bookcase 1) s'.places.bookcases ≡ [])
    × (select (is_own_room 1) s'.places.rooms ≡ [])
    × (select (is_own_member 1) s'.removed_members ≡ [])
    × (out.owned_books_deleted ≡ length (select (is_own_book 1) service.catalog.books))
    × (out.records_deleted ≡ length (select (is_own_record 1) service.catalog.records))
delete_library_data-wipes_example = delete_library_data-wipes 1 service refl refl refl

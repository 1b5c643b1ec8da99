-- ===== src/Backup/Import.antt =====
-- The steps of `ImportFullLibraryUseCase`, in import_full_library.py.
use jinbocho_catalog_v.Base.{ℕ, true, false, Option, none, some, or_else}
use jinbocho_catalog_v.Domain.Record.{BibliographicRecord}
use jinbocho_catalog_v.Exec.{Exec, pure, ◌>>=◌, ◌>>◌}
use jinbocho_catalog_v.Catalog.RecordRepo
use jinbocho_catalog_v.Catalog.RecordRepo.{is_given}
use jinbocho_catalog_v.Places.State.{Room, Bookcase, Section, Shelf}
use jinbocho_catalog_v.Places.RoomRepo
use jinbocho_catalog_v.Places.BookcaseRepo
use jinbocho_catalog_v.Places.SectionRepo
use jinbocho_catalog_v.Places.ShelfRepo
use jinbocho_catalog_v.Backup.Input.{
  IdMap, ImportRoomItem, ImportBookcaseItem, ImportSectionItem, ImportShelfItem, ImportRecordItem,
}
use jinbocho_catalog_v.Backup.Session.{Session, on_catalog, on_places}
use jinbocho_catalog_v.Backup.Loop.{get_or_raise}

module _ (library_id now : ℕ) where
  unfoldable pub find_record : ImportRecordItem → Exec Session (Option ℕ)
  unfolding RecordRepo.find_by_isbn RecordRepo.find_by_title_author
  find_record item = do
    existing ← on_catalog (elim item.isbn [
      | none ↦ RecordRepo.find_by_title_author library_id item.title item.main_author
      | some isbn ↦ elim (is_given item.isbn) [
        | true ↦ RecordRepo.find_by_isbn library_id isbn
        | false ↦ RecordRepo.find_by_title_author library_id item.title item.main_author
      ]
    ])
    pure (elim existing [ none ↦ none | some r ↦ some r.id ])

  abbrev pub restored_record : ImportRecordItem → ℕ → BibliographicRecord
  restored_record item new_id = record {
    id = new_id;
    library_id = library_id;
    title = item.title;
    main_author = item.main_author;
    other_authors = item.other_authors;
    isbn = item.isbn;
    publisher = item.publisher;
    publication_year = item.publication_year;
    language = item.language;
    genre = item.genre;
    genre_raw = item.genre_raw;
    cover_url = item.cover_url;
    notes = item.notes;
    incipit = item.incipit;
    incipit_source = item.incipit_source;
    incipit_generated_at = item.incipit_generated_at;
    created_at = or_else item.created_at now;
    updated_at = or_else item.updated_at now;
  }

  unfoldable pub add_record : ImportRecordItem → ℕ → Exec Session (Unit {0})
  unfolding RecordRepo.save
  add_record item new_id = do on_catalog (RecordRepo.save (restored_record item new_id)); pure tt

  unfoldable pub find_room : ImportRoomItem → Exec Session (Option ℕ)
  unfolding RoomRepo.find_by_name
  find_room item = do
    existing ← on_places (RoomRepo.find_by_name library_id item.name)
    pure (elim existing [ none ↦ none | some r ↦ some r.id ])

  abbrev pub restored_room : ImportRoomItem → ℕ → Room
  restored_room item new_id = record {
    id = new_id;
    library_id = library_id;
    name = item.name;
    description = item.description;
    created_at = or_else item.created_at now;
    updated_at = or_else item.updated_at now;
  }

  unfoldable pub add_room : ImportRoomItem → ℕ → Exec Session (Unit {0})
  unfolding RoomRepo.save
  add_room item new_id = do on_places (RoomRepo.save (restored_room item new_id)); pure tt

  module _ (rooms : IdMap) where
    unfoldable pub find_bookcase : ImportBookcaseItem → Exec Session (Option ℕ)
    unfolding BookcaseRepo.find_by_name
    find_bookcase item = do
      room ← get_or_raise item.room_id rooms
      existing ← on_places (BookcaseRepo.find_by_name room item.name)
      pure (elim existing [ none ↦ none | some b ↦ some b.id ])

    abbrev pub restored_bookcase : ImportBookcaseItem → (room new_id : ℕ) → Bookcase
    restored_bookcase item room new_id = record {
      id = new_id;
      library_id = library_id;
      room_id = room;
      name = item.name;
      description = item.description;
      type = item.type;
      notes = item.notes;
      image_url = item.image_url;
      created_at = or_else item.created_at now;
      updated_at = or_else item.updated_at now;
    }

    unfoldable pub add_bookcase : ImportBookcaseItem → ℕ → Exec Session (Unit {0})
    unfolding BookcaseRepo.save
    add_bookcase item new_id = do
      room ← get_or_raise item.room_id rooms
      on_places (BookcaseRepo.save (restored_bookcase item room new_id))
      pure tt

  module _ (bookcases : IdMap) where
    unfoldable pub find_section : ImportSectionItem → Exec Session (Option ℕ)
    unfolding SectionRepo.find_by_index
    find_section item = do
      bookcase ← get_or_raise item.bookcase_id bookcases
      existing ← on_places (SectionRepo.find_by_index bookcase item.section_index)
      pure (elim existing [ none ↦ none | some x ↦ some x.id ])

    abbrev pub restored_section : ImportSectionItem → (bookcase new_id : ℕ) → Section
    restored_section item bookcase new_id = record {
      id = new_id;
      bookcase_id = bookcase;
      section_index = item.section_index;
      label = item.label;
      created_at = or_else item.created_at now;
      updated_at = or_else item.updated_at now;
    }

    unfoldable pub add_section : ImportSectionItem → ℕ → Exec Session (Unit {0})
    unfolding SectionRepo.save
    add_section item new_id = do
      bookcase ← get_or_raise item.bookcase_id bookcases
      on_places (SectionRepo.save (restored_section item bookcase new_id))
      pure tt

  module _ (sections : IdMap) where
    unfoldable pub find_shelf : ImportShelfItem → Exec Session (Option ℕ)
    unfolding ShelfRepo.find_by_index
    find_shelf item = do
      section ← get_or_raise item.section_id sections
      existing ← on_places (ShelfRepo.find_by_index section item.shelf_index)
      pure (elim existing [ none ↦ none | some x ↦ some x.id ])

    abbrev pub restored_shelf : ImportShelfItem → (section new_id : ℕ) → Shelf
    restored_shelf item section new_id = record {
      id = new_id;
      section_id = section;
      shelf_index = item.shelf_index;
      notes = item.notes;
      created_at = or_else item.created_at now;
      updated_at = or_else item.updated_at now;
    }

    unfoldable pub add_shelf : ImportShelfItem → ℕ → Exec Session (Unit {0})
    unfolding ShelfRepo.save
    add_shelf item new_id = do
      section ← get_or_raise item.section_id sections
      on_places (ShelfRepo.save (restored_shelf item section new_id))
      pure tt

-- ===== src/Catalog/Metadata.antt =====
-- app/application/use_cases/catalog/update_book_metadata.py: the descriptive columns of a copy, and its
-- reading status by the rule of update_reading_status.py.
pub mod Effects
use jinbocho_catalog_v.Base.{
  ℕ, String, Bool, true, false, Option, none, some, List, not, ◌==◌, or_else, or_keep,
}
use jinbocho_catalog_v.Domain.Book.{
  BookCondition, BookSource, ReadingStatus, OwnedBook, HistoryData, BookEventType,
}
use jinbocho_catalog_v.Domain.Errors.{lookup_error, permission_error}
use jinbocho_catalog_v.Exec.{Exec, pure, or_raise, raise_if, ◌>>=◌, ◌>>◌}
use jinbocho_catalog_v.Catalog.State.{Catalog}
use jinbocho_catalog_v.Catalog.BookRepo
use jinbocho_catalog_v.Catalog.HistoryRepo
use jinbocho_catalog_v.Catalog.ReadingStatus.{reader_after, mark, stored_status, seen_by}

pub record UpdateBookMetadataInput : Type 0 where
  pub book_id : ℕ
  pub library_id : ℕ
  pub changed_by : ℕ
  pub condition : Option BookCondition
  pub purchase_date : Option ℕ
  pub purchase_price : Option ℕ
  pub source : Option BookSource
  pub reading_status : Option ReadingStatus
  pub owner_id : Option ℕ
  pub tags : Option (List String)
  pub notes : Option String

-- The reader and the column, if a status is asked for.
abbrev pub with_status : Option ReadingStatus → ℕ → OwnedBook → OwnedBook
with_status none user book = book
with_status (some asked) user book =
    let reader = reader_after asked book.current_reader_id user in
    record book { current_reader_id = reader; reading_status = stored_status reader }

-- Every other column that the input gives.
abbrev pub described : UpdateBookMetadataInput → ℕ → OwnedBook → OwnedBook
described inp now book = record book {
  condition = or_keep inp.condition book.condition;
  purchase_date = or_keep inp.purchase_date book.purchase_date;
  purchase_price = or_keep inp.purchase_price book.purchase_price;
  source = or_keep inp.source book.source;
  owner_id = or_keep inp.owner_id book.owner_id;
  tags = or_else inp.tags book.tags;
  notes = or_keep inp.notes book.notes;
  updated_at = now;
}

unfoldable pub mark_given : Option ReadingStatus → (book user now : ℕ) → Exec Catalog (Unit {0})
unfolding mark
mark_given none book user now = pure tt
mark_given (some asked) book user now = mark asked book user now

-- The answer shows the caller's own status, if one was asked for.
unfoldable pub shown : Option ReadingStatus → OwnedBook → ℕ → Exec Catalog OwnedBook
unfolding seen_by
shown none updated user = pure updated
shown (some asked) updated user = do
  status ← seen_by updated user
  pure (record updated { reading_status = status })

unfoldable pub update_book_metadata : UpdateBookMetadataInput → ℕ → Exec Catalog OwnedBook
unfolding BookRepo.find_by_id BookRepo.save mark_given shown HistoryRepo.save
update_book_metadata inp now = do
  found ← BookRepo.find_by_id inp.book_id
  book ← or_raise found lookup_error
  raise_if (not (book.library_id == inp.library_id)) permission_error
  mark_given inp.reading_status book.id inp.changed_by now
  saved ← BookRepo.save (described inp now (with_status inp.reading_status inp.changed_by book))
  updated ← shown inp.reading_status saved inp.changed_by
  HistoryRepo.save (record {
    owned_book_id = book.id;
    event_type = BookEventType.metadata_updated;
    changed_by = inp.changed_by;
    old_data = HistoryData.no_data;
    new_data = HistoryData.no_data;
    created_at = now;
  })
  pure updated

-- ===== src/Catalog/RecordRepo.antt =====
-- app/infrastructure/repositories/bibliographic_record_repository.py, with the unique constraint on the
-- library and the ISBN. The searches with a text query are left out.
use jinbocho_catalog_v.Base.{
  ℕ, String, Bool, true, false, Option, none, some, List, not, ◌==◌, ◌&&◌, str_eq, opt_str_eq,
}
use jinbocho_catalog_v.Base.Table
use jinbocho_catalog_v.Domain.Record.{BibliographicRecord}
use jinbocho_catalog_v.Domain.Errors.{integrity_error}
use jinbocho_catalog_v.Catalog.State.{Catalog}
use jinbocho_catalog_v.Exec.{Exec, pure, raise, gets, modify, ◌>>=◌, ◌>>◌}

abbrev pub record_by_id : ℕ → List BibliographicRecord → Option BibliographicRecord
record_by_id k rows = Table.get (λ (r : BibliographicRecord). r.id) k rows

abbrev pub has_isbn : ℕ → String → BibliographicRecord → Bool
has_isbn library_id isbn r = r.library_id == library_id && opt_str_eq r.isbn (some isbn)

abbrev pub has_title_author : ℕ → String → Option String → BibliographicRecord → Bool
has_title_author library_id title main_author r =
    r.library_id == library_id && (str_eq r.title title && opt_str_eq r.main_author main_author)

unfoldable pub find_by_id : ℕ → Exec Catalog (Option BibliographicRecord)
find_by_id k = gets (λ s. record_by_id k s.records)

unfoldable pub find_by_isbn : ℕ → String → Exec Catalog (Option BibliographicRecord)
find_by_isbn library_id isbn = gets (λ s. Table.find (has_isbn library_id isbn) s.records)

unfoldable pub find_by_title_author :
    ℕ → String → Option String → Exec Catalog (Option BibliographicRecord)
find_by_title_author library_id title main_author =
    gets (λ s. Table.find (has_title_author library_id title main_author) s.records)

-- What `save` assigns to a row that is there: every column but the key, the library and `created_at`.
abbrev pub assign : BibliographicRecord → BibliographicRecord → BibliographicRecord
assign old new = record new { library_id = old.library_id; created_at = old.created_at }

-- Another row of the library with the ISBN.
abbrev pub clash : BibliographicRecord → List BibliographicRecord → Option BibliographicRecord
clash r rows = elim r.isbn [
  | none ↦ none
  | some isbn ↦
      Table.find (λ (x : BibliographicRecord). has_isbn r.library_id isbn x && not (x.id == r.id))
        rows
]

-- `if x`, of a text that may be `None`
abbrev pub is_given : Option String → Bool
is_given none = false
is_given (some text) = not (str_eq text "")

unfoldable pub insert_new : BibliographicRecord → Exec Catalog BibliographicRecord
insert_new r = do modify (λ s. record s { records = Table.insert r s.records }); pure r

-- A row with a taken ISBN: the savepoint is rolled back, and the row that is there is the answer.
unfoldable pub insert_checked :
    BibliographicRecord → Option BibliographicRecord → Exec Catalog BibliographicRecord
unfolding insert_new
insert_checked r none = insert_new r
insert_checked r (some existing) = elim (is_given r.isbn) [
  | true ↦ pure existing
  | false ↦ raise integrity_error
]

unfoldable pub update_checked :
    BibliographicRecord
    → BibliographicRecord
    → Option BibliographicRecord
    → Exec Catalog BibliographicRecord
update_checked old r (some other) = raise integrity_error
update_checked old r none = do
  modify (λ s. record s {
    records = Table.save (λ (x : BibliographicRecord). x.id) assign r s.records;
  })
  pure (assign old r)

unfoldable pub save_over :
    Option BibliographicRecord
    → BibliographicRecord
    → Option BibliographicRecord
    → Exec Catalog BibliographicRecord
unfolding insert_checked update_checked
save_over none r other = insert_checked r other
save_over (some old) r other = update_checked old r other

unfoldable pub save : BibliographicRecord → Exec Catalog BibliographicRecord
unfolding save_over
save r = do
  old ← gets (λ s. record_by_id r.id s.records)
  other ← gets (λ s. clash r s.records)
  save_over old r other

unfoldable pub delete : ℕ → Exec Catalog (Unit {0})
delete k =
    modify
      (λ s. record s { records = Table.delete (λ (r : BibliographicRecord). r.id) k s.records })

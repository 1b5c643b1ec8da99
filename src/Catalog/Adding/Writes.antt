-- ===== src/Catalog/Adding/Writes.antt =====
-- What the first steps of adding a copy write: the record, if anything.
use jinbocho_catalog_v.Base.{ℕ, String, ◌≡◌, refl, Bool, true, false, Option, none, some, arith}
use jinbocho_catalog_v.Domain.Record.{BibliographicRecord}
use jinbocho_catalog_v.Exec.{Exec}
use jinbocho_catalog_v.Catalog.State.{Catalog}
use jinbocho_catalog_v.Catalog.RecordRepo
use jinbocho_catalog_v.Catalog.RecordRepo.{
  record_by_id, clash, save_over, insert_checked, update_checked, insert_new,
}
use jinbocho_catalog_v.Catalog.Duplicates.Reads.{check_for_duplicate-Answers}
use jinbocho_catalog_v.Catalog.Duplicates.{Fuzzy}
use jinbocho_catalog_v.Catalog.Adding.{
  AddBookInput, resolve_bibliographic_record, resolve_from, find_isbn, create_record, new_record,
  raise_conflict, check_new,
}

-- A use case that touches the records alone.
abbrev pub WritesRecords : {A : Type 0} → Exec Catalog A → Catalog → Type 0
WritesRecords m s = (m s).1 ≡ record s { records = (m s).1.records }

save_over-WritesRecords :
    (old : Option BibliographicRecord) (r : BibliographicRecord)
    (other : Option BibliographicRecord) (s : Catalog)
    → WritesRecords (save_over old r other) s
unfolding save_over insert_checked update_checked insert_new
save_over-WritesRecords none r none s = refl
save_over-WritesRecords none r (some x) s = ground arith
save_over-WritesRecords (some old) r none s = refl
save_over-WritesRecords (some old) r (some x) s = refl

module _ (normalize_isbn : String → String) (inp : AddBookInput) (k now : ℕ) (s : Catalog) where
  create-WritesRecords :
      (title : Option String) → WritesRecords (create_record normalize_isbn inp title k now) s
  unfolding create_record RecordRepo.save
  create-WritesRecords none = refl
  create-WritesRecords (some title) =
      let r = new_record normalize_isbn inp title k now in
      let saved = save_over-WritesRecords (record_by_id r.id s.records) r (clash r s.records) s in
      ground (arith, saved)

  resolve_from-WritesRecords :
      (asked : Option ℕ) → WritesRecords (resolve_from normalize_isbn asked inp k now) s
  unfolding resolve_from find_isbn
  resolve_from-WritesRecords (some record_id) = ground arith
  resolve_from-WritesRecords none = ground (arith, create-WritesRecords inp.title)

  pub resolve-WritesRecords :
      WritesRecords (resolve_bibliographic_record normalize_isbn inp k now) s
  unfolding resolve_bibliographic_record
  resolve-WritesRecords = resolve_from-WritesRecords inp.bibliographic_record_id

pub check-state :
    (intentional : Bool) (fz : Fuzzy) (lib : ℕ) (rec : BibliographicRecord) (s : Catalog)
    → (check_new intentional fz lib rec s).1 ≡ s
unfolding check_new raise_conflict
check-state true fz lib rec s = refl
check-state false fz lib rec s =
    let (c, out) = check_for_duplicate-Answers fz rec s lib in ground (arith, out)

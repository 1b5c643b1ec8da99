-- ===== src/Catalog/Duplicates.antt =====
-- The duplicate check of app/application/use_cases/catalog/add_book.py. The ratios of the package
-- rapidfuzz, the normalisation of a title by regular expressions, and the judge, a language model, are
-- parameters. A ratio is in hundredths of a percent, so a score of weights 0.7 and 0.3 is `7 * t + 3 * a`,
-- in units of 1/100000, and the thresholds are in these units; the rounding of doubles is left out.
pub mod Scan
pub mod Reads
use jinbocho_catalog_v.Base.{
  ℕ, suc, String, Bool, true, false, Option, none, some, List, [], ◌∷◌, ◌+◌, ◌*◌, not, ◌==◌, leb,
  ltb, length, or_else, if◌then◌else◌,
}
use jinbocho_catalog_v.Base.Table
use jinbocho_catalog_v.Domain.Book.{OwnedBook}
use jinbocho_catalog_v.Domain.Record.{BibliographicRecord}
use jinbocho_catalog_v.Domain.Errors.{
  ConflictType, isbn_match, title_author_match, fuzzy_match, DuplicateBookConflict,
}
use jinbocho_catalog_v.Exec.{Exec, pure, gets, ◌>>=◌, ◌>>◌}
use jinbocho_catalog_v.Services.Pagination.{page_of, fetch_all_pages}
use jinbocho_catalog_v.Catalog.State.{Catalog}
use jinbocho_catalog_v.Catalog.BookRepo
use jinbocho_catalog_v.Catalog.RecordRepo
use jinbocho_catalog_v.Catalog.RecordRepo.{is_given}

pub record FuzzyDedupConfig : Type 0 where
  pub high_threshold : ℕ
  pub low_threshold : ℕ

pub record DuplicateCandidate : Type 0 where
  pub title : String
  pub main_author : Option String
  pub publication_year : Option ℕ

pub record Judgement : Type 0 where
  pub is_duplicate : Bool
  pub reason : Option String

-- What the check calls and the repository does not hold.
pub record Fuzzy : Type 0 where
  pub normalize : String → String
  pub token_set_ratio : String → String → ℕ
  pub token_sort_ratio : String → String → ℕ
  pub judge : Option (DuplicateCandidate → DuplicateCandidate → Judgement)
  pub newest_first : List BibliographicRecord → List BibliographicRecord
  pub config : FuzzyDedupConfig

abbrev pub to_conflict :
    ConflictType → OwnedBook → BibliographicRecord → Option String → DuplicateBookConflict
to_conflict conflict_type existing found match_reason = record {
  conflict_type = conflict_type;
  existing_book_id = existing.id;
  existing_record_id = found.id;
  title = found.title;
  main_author = found.main_author;
  isbn = found.isbn;
  existing_owner_id = existing.owner_id;
  existing_room_id = existing.room_id;
  existing_bookcase_id = existing.bookcase_id;
  existing_section_id = existing.section_id;
  existing_shelf_id = existing.shelf_id;
  match_reason = match_reason;
}

-- The conflict with the copy that was found, if one was.
abbrev pub on_copy :
    (OwnedBook → Option DuplicateBookConflict) → Option OwnedBook → Option DuplicateBookConflict
on_copy f none = none
on_copy f (some b) = f b

-- `0.7 * title + 0.3 * author`, or the title alone where an author is missing
unfoldable pub weighted : Fuzzy → Option String → Option String → ℕ → ℕ
weighted fz (some mine) (some theirs) t =
    if is_given (some (fz.normalize mine))
    then if is_given (some theirs)
      then 7 * t + 3 * fz.token_sort_ratio (fz.normalize mine) (fz.normalize theirs)
      else 10 * t
    else 10 * t
weighted fz _ _ t = 10 * t

unfoldable pub loose_score : Fuzzy → BibliographicRecord → BibliographicRecord → ℕ
unfolding weighted
loose_score fz rec other =
    weighted fz rec.main_author other.main_author
      (fz.token_set_ratio (fz.normalize rec.title) (fz.normalize other.title))

unfoldable pub strict_score : Fuzzy → BibliographicRecord → BibliographicRecord → ℕ
unfolding weighted
strict_score fz rec other =
    weighted fz rec.main_author other.main_author
      (fz.token_sort_ratio (fz.normalize rec.title) (fz.normalize other.title))

pub record Best : Type 0 where
  pub best_record : Option BibliographicRecord
  pub best_loose_score : ℕ
  pub best_strict_score : ℕ

abbrev pub scored : Fuzzy → BibliographicRecord → BibliographicRecord → Best
scored fz rec other = record {
  best_record = some other;
  best_loose_score = loose_score fz rec other;
  best_strict_score = strict_score fz rec other;
}

abbrev pub better : Fuzzy → BibliographicRecord → Best → BibliographicRecord → Best
better fz rec best other =
    if ltb best.best_loose_score (loose_score fz rec other) then scored fz rec other else best

-- The loop over the other records, from the best so far.
unfoldable pub scan : Fuzzy → BibliographicRecord → Best → List BibliographicRecord → Best
scan fz rec best [] = best
scan fz rec best (other ∷ others) = scan fz rec (better fz rec best other) others

-- The loop over the pages of the library's records; it takes fuel, a unit for a page.
unfoldable pub all_library_records :
    Fuzzy → ℕ → List BibliographicRecord → Option (List BibliographicRecord)
all_library_records fz library_id rows =
    let mine =
      fz.newest_first
        (Table.select (λ (r : BibliographicRecord). r.library_id == library_id) rows) in
    fetch_all_pages (page_of mine) 200 (suc (length mine))

abbrev pub candidate : BibliographicRecord → DuplicateCandidate
candidate r = record {
  title = r.title;
  main_author = r.main_author;
  publication_year = r.publication_year;
}

-- The verdict on the best match and the copy that the library has of it.
unfoldable pub verdict :
    Fuzzy
    → (DuplicateCandidate → DuplicateCandidate → Judgement)
    → BibliographicRecord
    → Best
    → BibliographicRecord
    → OwnedBook
    → Option DuplicateBookConflict
verdict fz judge rec best found existing =
    if leb fz.config.high_threshold best.best_strict_score
    then some (to_conflict fuzzy_match existing found none)
    else let judgement = judge (candidate rec) (candidate found) in
      if judgement.is_duplicate
      then some (to_conflict fuzzy_match existing found judgement.reason)
      else none

-- From the best match on.
unfoldable pub judge_best :
    Fuzzy
    → (DuplicateCandidate → DuplicateCandidate → Judgement)
    → BibliographicRecord
    → Best
    → Option BibliographicRecord
    → Exec Catalog (Option DuplicateBookConflict)
unfolding BookRepo.find_one_by_record verdict
judge_best fz judge rec best none = pure none
judge_best fz judge rec best (some found) =
    if ltb best.best_loose_score fz.config.low_threshold
    then pure none
    else (BookRepo.find_one_by_record found.id >>= λ existing.
        pure (on_copy (verdict fz judge rec best found) existing))

abbrev pub others_of : BibliographicRecord → List BibliographicRecord → List BibliographicRecord
others_of rec rows = Table.select (λ (r : BibliographicRecord). not (r.id == rec.id)) rows

abbrev pub no_best : Best
no_best = record { best_record = none; best_loose_score = 0; best_strict_score = 0 }

unfoldable pub check_with :
    Fuzzy
    → Option (DuplicateCandidate → DuplicateCandidate → Judgement)
    → ℕ
    → BibliographicRecord
    → Exec Catalog (Option DuplicateBookConflict)
unfolding all_library_records judge_best
check_with fz none library_id rec = pure none
check_with fz (some judge) library_id rec = do
  pages ← gets (λ s. all_library_records fz library_id s.records)
  let best = scan fz rec no_best (others_of rec (or_else pages []))
  judge_best fz judge rec best best.best_record

unfoldable pub check_for_fuzzy_duplicate :
    Fuzzy → ℕ → BibliographicRecord → Exec Catalog (Option DuplicateBookConflict)
unfolding check_with
check_for_fuzzy_duplicate fz library_id rec = check_with fz fz.judge library_id rec

-- A copy of another record with the same title and author.
unfoldable pub title_conflict :
    BibliographicRecord → Option BibliographicRecord → Exec Catalog (Option DuplicateBookConflict)
unfolding BookRepo.find_one_by_record
title_conflict rec none = pure none
title_conflict rec (some found) =
    if found.id == rec.id
    then pure none
    else (BookRepo.find_one_by_record found.id >>= λ existing.
        pure (on_copy (λ b. some (to_conflict title_author_match b found none)) existing))

abbrev pub or_next :
    Option DuplicateBookConflict
    → Exec Catalog (Option DuplicateBookConflict)
    → Exec Catalog (Option DuplicateBookConflict)
or_next none next = next
or_next (some conflict) next = pure (some conflict)

-- From the second check on.
unfoldable pub check_titles :
    Fuzzy → ℕ → BibliographicRecord → Exec Catalog (Option DuplicateBookConflict)
unfolding RecordRepo.find_by_title_author title_conflict check_for_fuzzy_duplicate
check_titles fz library_id rec = do
  found ← RecordRepo.find_by_title_author library_id rec.title rec.main_author
  titled ← title_conflict rec found
  or_next titled (check_for_fuzzy_duplicate fz library_id rec)

unfoldable pub check_for_duplicate :
    Fuzzy → ℕ → BibliographicRecord → Exec Catalog (Option DuplicateBookConflict)
unfolding BookRepo.find_one_by_record check_titles
check_for_duplicate fz library_id rec = do
  same ← BookRepo.find_one_by_record rec.id
  or_next (on_copy (λ b. some (to_conflict isbn_match b rec none)) same)
      (check_titles fz library_id rec)

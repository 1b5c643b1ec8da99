-- ===== src/Catalog/Duplicates/Reads.antt =====
-- The duplicate check only reads, and always answers.
use jinbocho_catalog_v.Base.{
  ℕ, ◌≡◌, refl, inl, inr, Option, none, some, [], arith, ◌==◌, ltb, or_else, Bool-cases,
  Option-cases,
}
use jinbocho_catalog_v.Base.Table.{find}
use jinbocho_catalog_v.Domain.Record.{BibliographicRecord}
use jinbocho_catalog_v.Domain.Errors.{DuplicateBookConflict, isbn_match, title_author_match}
use jinbocho_catalog_v.Domain.Book.{OwnedBook}
use jinbocho_catalog_v.Exec.{Exec, ok}
use jinbocho_catalog_v.Catalog.State.{Catalog}
use jinbocho_catalog_v.Catalog.RecordRepo.{has_title_author, find_by_title_author}
use jinbocho_catalog_v.Catalog.Duplicates.{
  on_copy, verdict, to_conflict, Fuzzy, DuplicateCandidate, Judgement, Best, judge_best, check_with,
  check_for_fuzzy_duplicate, title_conflict, check_for_duplicate, check_titles, or_next, scan,
  no_best, others_of, all_library_records,
}

-- A copy of a record, if there is one.
abbrev pub copy_of : ℕ → Catalog → Option OwnedBook
copy_of record_id s = find (λ (b : OwnedBook). b.bibliographic_record_id == record_id) s.books

-- The answer, with the state as it was.
abbrev pub Answers : Exec Catalog (Option DuplicateBookConflict) → Catalog → Type 0
Answers m s = (c : Option DuplicateBookConflict) × (m s ≡ (ok c, s))

module _ (fz : Fuzzy) (rec : BibliographicRecord) (s : Catalog) where
  judge_best-Answers :
      (judge : DuplicateCandidate → DuplicateCandidate → Judgement) (best : Best)
      (found : Option BibliographicRecord)
      → Answers (judge_best fz judge rec best found) s
  unfolding judge_best
  judge_best-Answers judge best none = (none, refl)
  judge_best-Answers judge best (some r) =
      let copy : Option OwnedBook =
        find (λ (b : OwnedBook). b.bibliographic_record_id == r.id) s.books in
      elim (Bool-cases (ltb best.best_loose_score fz.config.low_threshold)) [
        | inl low ↦ (none, rw low refl)
        | inr high ↦ (on_copy (verdict fz judge rec best r) copy, rw high refl)
      ]

  check_with-Answers :
      (judge : Option (DuplicateCandidate → DuplicateCandidate → Judgement)) (lib : ℕ)
      → Answers (check_with fz judge lib rec) s
  unfolding check_with
  check_with-Answers none lib = (none, refl)
  check_with-Answers (some judge) lib =
      let best =
        scan fz rec no_best (others_of rec (or_else (all_library_records fz lib s.records) [])) in
      judge_best-Answers judge best best.best_record

  title_conflict-Answers :
      (found : Option BibliographicRecord) → Answers (title_conflict rec found) s
  unfolding title_conflict
  title_conflict-Answers none = (none, refl)
  title_conflict-Answers (some r) =
      let copy : Option OwnedBook =
        find (λ (b : OwnedBook). b.bibliographic_record_id == r.id) s.books in
      elim (Bool-cases (r.id == rec.id)) [
        | inl same ↦ (none, rw same refl)
        | inr other ↦
            (on_copy (λ b. some (to_conflict title_author_match b r none)) copy, rw other refl)
      ]

  or_next-Answers :
      (first : Option DuplicateBookConflict) (next : Exec Catalog (Option DuplicateBookConflict))
      → Answers next s
      → Answers (or_next first next) s
  or_next-Answers none next h = h
  or_next-Answers (some c) next h = (some c, refl)

  check_titles-Answers : (lib : ℕ) → Answers (check_titles fz lib rec) s
  unfolding check_titles check_for_fuzzy_duplicate find_by_title_author
  check_titles-Answers lib =
      let titled : Option BibliographicRecord =
        find (has_title_author lib rec.title rec.main_author) s.records in
      let (c, out) = title_conflict-Answers titled in
      let (d, last) =
        or_next-Answers c (check_for_fuzzy_duplicate fz lib rec)
          (check_with-Answers fz.judge lib) in
      (d, ground (arith, out, last))

  pub check_for_duplicate-Answers : (lib : ℕ) → Answers (check_for_duplicate fz lib rec) s
  unfolding check_for_duplicate
  check_for_duplicate-Answers lib =
      or_next-Answers
        (on_copy (λ b. some (to_conflict isbn_match b rec none))
          (find (λ (b : OwnedBook). b.bibliographic_record_id == rec.id) s.books))
        (check_titles fz lib rec) (check_titles-Answers lib)

  -- The library having a copy of the very record is a conflict.
  pub check_for_duplicate-same :
      (lib : ℕ) {b : OwnedBook}
      → copy_of rec.id s ≡ some b
      → check_for_duplicate fz lib rec s ≡ (ok (some (to_conflict isbn_match b rec none)), s)
  unfolding check_for_duplicate
  check_for_duplicate-same lib h = rw h refl

  -- No conflict: nobody has a copy of the record, nor of the first one with its title and author.
  pub check_for_duplicate-none :
      (lib : ℕ)
      → check_for_duplicate fz lib rec s ≡ (ok none, s)
      → (copy_of rec.id s ≡ none)
        × ((other : BibliographicRecord)
            → find (has_title_author lib rec.title rec.main_author) s.records ≡ some other
            → copy_of other.id s ≡ none)
  unfolding check_for_duplicate check_titles title_conflict find_by_title_author
  check_for_duplicate-none lib h =
      let first : copy_of rec.id s ≡ none = elim (Option-cases (copy_of rec.id s)) [
        | inl free ↦ free
        | inr (b, owned) ↦ ground (arith, check_for_duplicate-same lib owned)
      ] in
      (
        first,
        λ other titled. elim (Bool-cases (other.id == rec.id)) [
          | inl same ↦ let key : other.id ≡ rec.id = ground arith in rw key first
          | inr different ↦ elim (Option-cases (copy_of other.id s)) [
            | inl free ↦ free
            | inr (b, owned) ↦ ground arith
          ]
        ],
      )

-- ===== src/Catalog/Duplicates/Scan.antt =====
-- The scan for the best match.
use jinbocho_catalog_v.Base.{
  ℕ, suc, ◌≡◌, refl, ◌⊎◌, inl, inr, ◌≤◌, none, some, List, [], ◌∷◌, arith, ltb, All, ◌==◌,
  Bool-cases, length,
}
use jinbocho_catalog_v.Base.Table.{select}
use jinbocho_catalog_v.Domain.Record.{BibliographicRecord}
use jinbocho_catalog_v.Services.Pagination.{page_of, fetch_all_pages-rows}
use jinbocho_catalog_v.Catalog.Duplicates.{
  Fuzzy, loose_score, Best, no_best, scored, better, scan, all_library_records,
}

-- The record is one of the list.
abbrev pub IsOneOf : BibliographicRecord → List BibliographicRecord → Type 0
IsOneOf r [] = ⊥
IsOneOf r (x ∷ rows) = (r ≡ x) ⊎ IsOneOf r rows

module _ (fz : Fuzzy) (rec : BibliographicRecord) where
  -- The scan gives the best of the start and the rows, by the loose score.
  pub scan_lem :
      (best : Best) (rows : List BibliographicRecord)
      → let out = scan fz rec best rows in
        (best.best_loose_score ≤ out.best_loose_score)
        × All (λ r. loose_score fz rec r ≤ out.best_loose_score) rows
        × ((out ≡ best) ⊎ ((r : BibliographicRecord) × IsOneOf r rows × (out ≡ scored fz rec r)))
  unfolding scan
  scan_lem best [] = (omega arith, tt, inl refl)
  scan_lem best (x ∷ rows) =
      let (from, all, is) = scan_lem (better fz rec best x) rows in
      elim (Bool-cases (ltb best.best_loose_score (loose_score fz rec x))) [
        | inl more ↦ (
          ground (arith, from, more),
          (ground (arith, from, more), all),
          elim is [
            | inl same ↦ inr (x, inl refl, ground (arith, same, more))
            | inr (r, of, out) ↦ inr (r, inr of, out)
          ],
        )
        | inr less ↦ (
          ground (arith, from, less),
          (ground (arith, from, less), all),
          elim is [
            | inl same ↦ inl (ground (arith, same, less))
            | inr (r, of, out) ↦ inr (r, inr of, out)
          ],
        )
      ]

  -- The scan from nothing finds a record with the greatest loose score among the rows, with both its
  -- scores; or there is none, and no row has a loose score above zero.
  pub scan-best :
      (rows : List BibliographicRecord)
      → let out = scan fz rec no_best rows in
        All (λ r. loose_score fz rec r ≤ out.best_loose_score) rows
        × (((out.best_record ≡ none) × (out.best_loose_score ≡ 0))
            ⊎ ((r : BibliographicRecord) × IsOneOf r rows × (out ≡ scored fz rec r)))
  scan-best rows =
      let (from, all, is) = scan_lem no_best rows in
      (all, elim is [ inl same ↦ inl (ground arith, ground arith) | inr some_row ↦ inr some_row ])

  -- The pages hold all the records of the library.
  pub all_library_records_lem :
      (library_id : ℕ) (rows : List BibliographicRecord)
      → all_library_records fz library_id rows
        ≡ some (
            fz.newest_first (select (λ (r : BibliographicRecord). r.library_id == library_id) rows))
  unfolding all_library_records
  all_library_records_lem library_id rows =
      let mine =
        fz.newest_first (select (λ (r : BibliographicRecord). r.library_id == library_id) rows) in
      fetch_all_pages-rows mine (page_of mine) 200 (suc (length mine)) (λ o. refl) (omega arith)
        (omega arith)

-- ===== src/Places/Guards.antt =====
-- What the guards of the places answer, and what the saves write.
use jinbocho_catalog_v.Base.{
  ℕ, ◌≡◌, ◌⊎◌, none, some, inl, inr, arith, ◌==◌, Bool-cases, Option-cases,
}
use jinbocho_catalog_v.Domain.Errors.{Error, lookup_error, permission_error}
use jinbocho_catalog_v.Exec.{Exec, ok, err}
use jinbocho_catalog_v.Places.State.{Bookcase, Section, Shelf, Places}
use jinbocho_catalog_v.Places.RoomRepo.{room_by_id}
use jinbocho_catalog_v.Places.BookcaseRepo.{bookcase_by_id}
use jinbocho_catalog_v.Places.SectionRepo
use jinbocho_catalog_v.Places.SectionRepo.{section_by_id}
use jinbocho_catalog_v.Places.ShelfRepo
use jinbocho_catalog_v.Places.ShelfRepo.{shelf_by_id}
use jinbocho_catalog_v.Places.Access.{
  get_room_for_library, get_bookcase_for_library, get_section_for_library, get_shelf_for_library,
}

-- A read that raises, or that returns a value of which `P` holds, and changes nothing.
abbrev pub Answers : {A : Type 0} → Exec Places A → Places → (A → Type 0) → Type 0
Answers {A = A} m s P = ((e : Error) × (m s ≡ (err e, s))) ⊎ ((a : A) × (m s ≡ (ok a, s)) × P a)

module _ (s : Places) where
  pub get_room-Answers :
      (k lib : ℕ)
      → Answers
          (get_room_for_library k lib)
          s
          (λ r. (room_by_id k s.rooms ≡ some r) × (r.library_id ≡ lib))
  unfolding get_room_for_library
  get_room-Answers k lib = elim (Option-cases (room_by_id k s.rooms)) [
    | inl gone ↦ inl (lookup_error, ground arith)
    | inr (r, found) ↦ elim (Bool-cases (r.library_id == lib)) [
      | inl own ↦ inr (r, ground arith, (found, ground arith))
      | inr other ↦ inl (permission_error, ground arith)
    ]
  ]

  pub get_bookcase-Answers :
      (k lib : ℕ)
      → Answers
          (get_bookcase_for_library k lib)
          s
          (λ b. (bookcase_by_id k s.bookcases ≡ some b) × (b.library_id ≡ lib))
  unfolding get_bookcase_for_library
  get_bookcase-Answers k lib = elim (Option-cases (bookcase_by_id k s.bookcases)) [
    | inl gone ↦ inl (lookup_error, ground arith)
    | inr (b, found) ↦ elim (Bool-cases (b.library_id == lib)) [
      | inl own ↦ inr (b, ground arith, (found, ground arith))
      | inr other ↦ inl (permission_error, ground arith)
    ]
  ]

  pub get_section-Answers :
      (k lib : ℕ)
      → Answers (get_section_for_library k lib) s (λ x.
        (section_by_id k s.sections ≡ some x)
        × (b : Bookcase) × (bookcase_by_id x.bookcase_id s.bookcases ≡ some b)
        × (b.library_id ≡ lib))
  unfolding get_section_for_library
  get_section-Answers k lib = elim (Option-cases (section_by_id k s.sections)) [
    | inl gone ↦ inl (lookup_error, ground arith)
    | inr (x, found) ↦ elim (get_bookcase-Answers x.bookcase_id lib) [
      | inl (e, out) ↦ inl (e, ground (arith, found, out))
      | inr (b, out, (there, own)) ↦ inr (x, ground (arith, found, out), (found, b, there, own))
    ]
  ]

  pub get_shelf-Answers :
      (k lib : ℕ)
      → Answers (get_shelf_for_library k lib) s (λ x.
        (shelf_by_id k s.shelves ≡ some x)
        × (y : Section) × (section_by_id x.section_id s.sections ≡ some y)
        × (b : Bookcase) × (bookcase_by_id y.bookcase_id s.bookcases ≡ some b)
        × (b.library_id ≡ lib))
  unfolding get_shelf_for_library
  get_shelf-Answers k lib = elim (Option-cases (shelf_by_id k s.shelves)) [
    | inl gone ↦ inl (lookup_error, ground arith)
    | inr (x, found) ↦ elim (get_section-Answers x.section_id lib) [
      | inl (e, out) ↦ inl (e, ground (arith, found, out))
      | inr (y, out, (held, b, there, own)) ↦
          inr (x, ground (arith, found, out), (found, y, held, b, there, own))
    ]
  ]

  pub save_section-writes :
      (x : Section)
      → ((SectionRepo.save x s).1 ≡ s)
        ⊎ ((SectionRepo.clash x s.sections ≡ none)
            × ((SectionRepo.save x s).1
                ≡ record s { sections = SectionRepo.save_rows x s.sections }))
  unfolding SectionRepo.save SectionRepo.save_checked
  save_section-writes x = elim (Option-cases (SectionRepo.clash x s.sections)) [
    | inl free ↦ inr (free, ground arith)
    | inr (other, taken) ↦ inl (ground arith)
  ]

  pub save_shelf-writes :
      (x : Shelf)
      → ((ShelfRepo.save x s).1 ≡ s)
        ⊎ ((ShelfRepo.clash x s.shelves ≡ none)
            × ((ShelfRepo.save x s).1 ≡ record s { shelves = ShelfRepo.save_rows x s.shelves }))
  unfolding ShelfRepo.save ShelfRepo.save_checked
  save_shelf-writes x = elim (Option-cases (ShelfRepo.clash x s.shelves)) [
    | inl free ↦ inr (free, ground arith)
    | inr (other, taken) ↦ inl (ground arith)
  ]

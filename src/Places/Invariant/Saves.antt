-- ===== src/Places/Invariant/Saves.antt =====
-- What each save needs to keep the places well formed.
use jinbocho_catalog_v.Base.{
  ℕ, ◌≡◌, ◌⊎◌, refl, Bool, false, none, some, List, [], ◌∷◌, inl, inr, arith, ◌==◌, Bool-cases,
}
use jinbocho_catalog_v.Base.Table
use jinbocho_catalog_v.Places.State.{Room, Bookcase, Section, Shelf, Places}
use jinbocho_catalog_v.Places.RoomRepo
use jinbocho_catalog_v.Places.RoomRepo.{room_by_id}
use jinbocho_catalog_v.Places.BookcaseRepo
use jinbocho_catalog_v.Places.BookcaseRepo.{bookcase_by_id}
use jinbocho_catalog_v.Places.SectionRepo
use jinbocho_catalog_v.Places.SectionRepo.{section_by_id}
use jinbocho_catalog_v.Places.ShelfRepo
use jinbocho_catalog_v.Places.ShelfRepo.{shelf_by_id}
use jinbocho_catalog_v.Places.Invariant.{IsHoused, IsPlaced}

-- A row of an id that a test finds nothing else of.
find-none-get :
    {Row : Type 0} (id : Row → ℕ) (p : Row → Bool) (rows : List Row) (k : ℕ) (x : Row)
    → Table.find p rows ≡ none
    → Table.get id k rows ≡ some x
    → (p x ≡ false) × (id x ≡ k)
find-none-get id p [] k x h f = absurd (ground arith)
find-none-get id p (r ∷ rows) k x h f = elim (Bool-cases (id r == k)) [
  | inl hit ↦ let same : r ≡ x = ground arith in rw (← same) (ground arith, ground arith)
  | inr miss ↦ find-none-get id p rows k x (ground arith) (ground arith)
]

module _ (s : Places) (h : IsPlaced s) where
  pub save_room-IsPlaced : (r : Room) → IsPlaced (record s { rooms = RoomRepo.save_rows r s.rooms })
  save_room-IsPlaced r = record {
    housed = λ k b f.
        let (old, there, lib) = h.housed k b f in
        let saved =
          Table.get-save (λ (x : Room). x.id) RoomRepo.assign r s.rooms b.room_id (λ o. refl) in
        elim (Bool-cases (r.id == b.room_id)) [
          | inl hit ↦ (RoomRepo.assign old r, ground (arith, saved, there), lib)
          | inr miss ↦ (old, ground (arith, saved, there), lib)
        ];
    held = h.held;
    shelved = h.shelved;
    one_section = h.one_section;
    one_shelf = h.one_shelf;
  }

  pub save_bookcase-IsPlaced :
      (b : Bookcase)
      → IsHoused s.rooms b
      → ((old : Bookcase)
          → bookcase_by_id b.id s.bookcases ≡ some old
          → old.library_id ≡ b.library_id)
      → IsPlaced (record s { bookcases = BookcaseRepo.save_rows b s.bookcases })
  save_bookcase-IsPlaced b (room, there, lib) kept = record {
    housed = λ k c f. elim (cases k f) [
      | inl (hit, inl same) ↦ rw same (room, there, lib)
      | inl (hit, inr (old, found, same)) ↦
          rw same (room, there, ground (arith, lib, kept old (rw hit found)))
      | inr (miss, found) ↦ h.housed k c found
    ];
    held = λ k x f.
        let (c, found) = h.held k x f in
        Table.get-save-stays (λ (x : Bookcase). x.id) BookcaseRepo.assign b s.bookcases
          x.bookcase_id (λ o. refl) found;
    shelved = h.shelved;
    one_section = h.one_section;
    one_shelf = h.one_shelf;
  }
    where
      cases :
          (k : ℕ) {c : Bookcase}
          → bookcase_by_id k (BookcaseRepo.save_rows b s.bookcases) ≡ some c
          → ((b.id ≡ k)
              × ((c ≡ b)
                  ⊎ ((old : Bookcase) × (bookcase_by_id k s.bookcases ≡ some old)
                      × (c ≡ BookcaseRepo.assign old b))))
            ⊎ (((b.id == k) ≡ false) × (bookcase_by_id k s.bookcases ≡ some c))
      cases k f =
          Table.get-save-cases (λ (x : Bookcase). x.id) BookcaseRepo.assign b s.bookcases k
            (λ o. refl) f

  pub save_section-IsPlaced :
      (x : Section) {b : Bookcase}
      → bookcase_by_id x.bookcase_id s.bookcases ≡ some b
      → SectionRepo.clash x s.sections ≡ none
      → IsPlaced (record s { sections = SectionRepo.save_rows x s.sections })
  save_section-IsPlaced x {b} there alone = record {
    housed = h.housed;
    held = λ k y f. elim (cases k f) [
      | inl (hit, parent, index) ↦ (b, rw parent there)
      | inr (miss, found) ↦ h.held k y found
    ];
    shelved = λ k y f.
        let (z, found) = h.shelved k y f in
        Table.get-save-stays (λ (x : Section). x.id) SectionRepo.assign x s.sections y.section_id
          (λ o. refl) found;
    one_section = λ j k y z f g e i. elim (cases j f) [
      | inl (hit, parent, index) ↦ elim (cases k g) [
        | inl (hit', parent', index') ↦ ground arith
        | inr (miss, found) ↦ ground (arith, apart k found)
      ]
      | inr (miss, found) ↦ elim (cases k g) [
        | inl (hit, parent, index) ↦ ground (arith, apart j found)
        | inr (miss', found') ↦ h.one_section j k y z found found' e i
      ]
    ];
    one_shelf = h.one_shelf;
  }
    where
      cases :
          (k : ℕ) {y : Section}
          → section_by_id k (SectionRepo.save_rows x s.sections) ≡ some y
          → ((x.id ≡ k) × (y.bookcase_id ≡ x.bookcase_id) × (y.section_index ≡ x.section_index))
            ⊎ (((x.id == k) ≡ false) × (section_by_id k s.sections ≡ some y))
      cases k f = ground (
        arith,
        Table.get-save-cases (λ (y : Section). y.id) SectionRepo.assign x s.sections k (λ o. refl)
            f,
      )

      apart :
          (k : ℕ) {y : Section}
          → section_by_id k s.sections ≡ some y
          → (SectionRepo.is_clash x y ≡ false) × (y.id ≡ k)
      apart k f =
          find-none-get (λ (y : Section). y.id) (SectionRepo.is_clash x) s.sections k _ alone f

  pub save_shelf-IsPlaced :
      (x : Shelf) {b : Section}
      → section_by_id x.section_id s.sections ≡ some b
      → ShelfRepo.clash x s.shelves ≡ none
      → IsPlaced (record s { shelves = ShelfRepo.save_rows x s.shelves })
  save_shelf-IsPlaced x {b} there alone = record {
    housed = h.housed;
    held = h.held;
    shelved = λ k y f. elim (cases k f) [
      | inl (hit, parent, index) ↦ (b, rw parent there)
      | inr (miss, found) ↦ h.shelved k y found
    ];
    one_section = h.one_section;
    one_shelf = λ j k y z f g e i. elim (cases j f) [
      | inl (hit, parent, index) ↦ elim (cases k g) [
        | inl (hit', parent', index') ↦ ground arith
        | inr (miss, found) ↦ ground (arith, apart k found)
      ]
      | inr (miss, found) ↦ elim (cases k g) [
        | inl (hit, parent, index) ↦ ground (arith, apart j found)
        | inr (miss', found') ↦ h.one_shelf j k y z found found' e i
      ]
    ];
  }
    where
      cases :
          (k : ℕ) {y : Shelf}
          → shelf_by_id k (ShelfRepo.save_rows x s.shelves) ≡ some y
          → ((x.id ≡ k) × (y.section_id ≡ x.section_id) × (y.shelf_index ≡ x.shelf_index))
            ⊎ (((x.id == k) ≡ false) × (shelf_by_id k s.shelves ≡ some y))
      cases k f = ground (
        arith,
        Table.get-save-cases (λ (y : Shelf). y.id) ShelfRepo.assign x s.shelves k (λ o. refl) f,
      )

      apart :
          (k : ℕ) {y : Shelf}
          → shelf_by_id k s.shelves ≡ some y
          → (ShelfRepo.is_clash x y ≡ false) × (y.id ≡ k)
      apart k f = find-none-get (λ (y : Shelf). y.id) (ShelfRepo.is_clash x) s.shelves k _ alone f

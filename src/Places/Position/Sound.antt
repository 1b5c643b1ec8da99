-- ===== src/Places/Position/Sound.antt =====
-- What a valid position is.
use jinbocho_catalog_v.Base.{
  ℕ, ◌≡◌, ◌⊎◌, refl, some, inl, inr, arith, ap, ◌==◌, Bool-cases, Option-cases,
}
use jinbocho_catalog_v.Domain.Errors.{lookup_error, permission_error}
use jinbocho_catalog_v.Exec.{ok, err}
use jinbocho_catalog_v.Places.State.{Room, Bookcase, Section, Shelf, Places}
use jinbocho_catalog_v.Places.RoomRepo.{room_by_id}
use jinbocho_catalog_v.Places.BookcaseRepo.{bookcase_by_id}
use jinbocho_catalog_v.Places.SectionRepo.{section_by_id}
use jinbocho_catalog_v.Places.ShelfRepo.{shelf_by_id}
use jinbocho_catalog_v.Places.Access.{get_shelf_for_library}
use jinbocho_catalog_v.Places.Guards.{get_shelf-Answers}
use jinbocho_catalog_v.Places.Invariant.{IsPlaced}
use jinbocho_catalog_v.Places.Position.{validate}

-- The room is of the library, the bookcase of the library and in the room, and so on down to the shelf.
pub record IsPosition (s : Places) (lib room bookcase section shelf : ℕ) : Type 0 where
  pub the_room : Room
  pub the_bookcase : Bookcase
  pub the_section : Section
  pub the_shelf : Shelf
  pub room_found : room_by_id room s.rooms ≡ some the_room
  pub bookcase_found : bookcase_by_id bookcase s.bookcases ≡ some the_bookcase
  pub section_found : section_by_id section s.sections ≡ some the_section
  pub shelf_found : shelf_by_id shelf s.shelves ≡ some the_shelf
  pub own_room : the_room.library_id ≡ lib
  pub own_bookcase : the_bookcase.library_id ≡ lib
  pub in_room : the_bookcase.room_id ≡ room
  pub in_bookcase : the_section.bookcase_id ≡ bookcase
  pub in_section : the_shelf.section_id ≡ section

module _ (s : Places) (lib room bookcase section shelf : ℕ) where
  -- A position that is valid is resolved to its room and its ids.
  pub validate_complete :
      (at : IsPosition s lib room bookcase section shelf)
      → validate lib room bookcase section shelf s ≡ (
        ok (record {
          room = at.the_room;
          bookcase_id = bookcase;
          section_id = section;
          shelf_id = shelf;
        }),
        s,
      )
  unfolding validate
  validate_complete at = ground (
    arith, at.room_found, at.bookcase_found, at.section_found, at.shelf_found, at.own_room,
    at.own_bookcase, at.in_room, at.in_bookcase, at.in_section,
  )

  -- A refusal, with nothing changed.
  abbrev pub Refuses : Type 0
  Refuses =
      (validate lib room bookcase section shelf s ≡ (err lookup_error, s))
      ⊎ (validate lib room bookcase section shelf s ≡ (err permission_error, s))

  found_below :
      (r : Room) (b : Bookcase)
      → room_by_id room s.rooms ≡ some r
      → bookcase_by_id bookcase s.bookcases ≡ some b
      → r.library_id ≡ lib
      → b.library_id ≡ lib
      → b.room_id ≡ room
      → Refuses ⊎ IsPosition s lib room bookcase section shelf
  unfolding validate
  found_below r b fr fb own own' at_room = elim (Option-cases (section_by_id section s.sections)) [
    | inl gone ↦ inl (inl (ground arith))
    | inr (x, fx) ↦ elim (Bool-cases (x.bookcase_id == bookcase)) [
      | inr off ↦ inl (inl (ground arith))
      | inl at_bookcase ↦ elim (Option-cases (shelf_by_id shelf s.shelves)) [
        | inl gone ↦ inl (inl (ground arith))
        | inr (y, fy) ↦ elim (Bool-cases (y.section_id == section)) [
          | inr off ↦ inl (inl (ground arith))
          | inl at_section ↦ inr (record {
            the_room = r;
            the_bookcase = b;
            the_section = x;
            the_shelf = y;
            room_found = fr;
            bookcase_found = fb;
            section_found = fx;
            shelf_found = fy;
            own_room = own;
            own_bookcase = own';
            in_room = at_room;
            in_bookcase = ground arith;
            in_section = ground arith;
          })
        ]
      ]
    ]
  ]

  -- The check of a position raises a lookup or a permission error, with nothing changed, unless the room is
  -- the library's, the bookcase is the library's and in the room, the section is in the bookcase, and the
  -- shelf in the section.
  pub validate_sound : Refuses ⊎ IsPosition s lib room bookcase section shelf
  unfolding validate
  validate_sound = elim (Option-cases (room_by_id room s.rooms)) [
    | inl gone ↦ inl (inl (ground arith))
    | inr (r, fr) ↦ elim (Bool-cases (r.library_id == lib)) [
      | inr off ↦ inl (inr (ground arith))
      | inl own ↦ elim (Option-cases (bookcase_by_id bookcase s.bookcases)) [
        | inl gone ↦ inl (inl (ground arith))
        | inr (b, fb) ↦ elim (Bool-cases (b.library_id == lib)) [
          | inr off ↦ inl (inr (ground arith))
          | inl own' ↦ elim (Bool-cases (b.room_id == room)) [
            | inr off ↦ inl (inl (ground arith))
            | inl at_room ↦ found_below r b fr fb (ground arith) (ground arith) (ground arith)
          ]
        ]
      ]
    ]
  ]

-- Where places are in order, a shelf that the library may read has one position, which the check accepts:
-- the section of the shelf, its bookcase, and the room of that.
pub get_shelf-validate :
    (s : Places) (k lib : ℕ) {y : Shelf}
    → IsPlaced s
    → (get_shelf_for_library k lib s).0 ≡ ok y
    → (x : Section) × (b : Bookcase) × (r : Room) × (section_by_id y.section_id s.sections ≡ some x)
      × (validate lib b.room_id x.bookcase_id y.section_id k s ≡ (
        ok (record {
          room = r;
          bookcase_id = x.bookcase_id;
          section_id = y.section_id;
          shelf_id = k;
        }),
        s,
      ))
get_shelf-validate s k lib {y} h out = elim (get_shelf-Answers s k lib) [
  | inl (e, bad) ↦ absurd (ground (arith, out, bad))
  | inr (y', good, (found, x, held, b, stands, own)) ↦
      let same : y' ≡ y = ground (arith, out, good) in
      let (r, there, lib') = h.housed x.bookcase_id b stands in
      let placed = ap (λ (z : Shelf). z.section_id) same in
      (
        x,
        b,
        r,
        rw (← same) held,
        validate_complete s lib b.room_id x.bookcase_id y.section_id k (record {
          the_room = r;
          the_bookcase = b;
          the_section = x;
          the_shelf = y;
          room_found = there;
          bookcase_found = stands;
          section_found = rw (← same) held;
          shelf_found = rw (← same) found;
          own_room = ground (arith, lib', own);
          own_bookcase = own;
          in_room = refl;
          in_bookcase = refl;
          in_section = refl;
        }),
      )
]

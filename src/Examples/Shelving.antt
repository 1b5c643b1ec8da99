-- ===== src/Examples/Shelving.antt =====
-- Rooms and shelves, made from nothing.
use jinbocho_catalog_v.Base.{◌≡◌, refl, ◌⊎◌, none, some}
use jinbocho_catalog_v.Exec.{ok}
use jinbocho_catalog_v.Places.State.{Room, Bookcase, Section, Places}
use jinbocho_catalog_v.Places.SectionRepo.{section_by_id}
use jinbocho_catalog_v.Places.Access.{get_shelf_for_library}
use jinbocho_catalog_v.Places.Invariant.{IsPlaced}
use jinbocho_catalog_v.Places.Position.{validate}
use jinbocho_catalog_v.Places.Position.Sound.{
  IsPosition, Refuses, validate_sound, get_shelf-validate,
}
use jinbocho_catalog_v.Places.Life.{
  Change, room_created, bookcase_created, section_created, shelf_created, shelf_updated, apply,
  Reachable, start, step, no_places,
}
use jinbocho_catalog_v.Places.Life.Steps.{Reachable-IsPlaced}

abbrev study : Change
study = room_created (record { library_id = 1; name = "Study"; description = none }) 1 9

abbrev oak : Change
oak =
    bookcase_created
      (record {
        library_id = 1;
        room_id = 1;
        name = "Oak";
        description = none;
        type = none;
        notes = none;
        image_url = none;
      })
      2 9

abbrev left_side : Change
left_side =
    section_created (record { library_id = 1; bookcase_id = 2; section_index = 0; label = none }) 3
      9

abbrev top_shelf : Change
top_shelf =
    shelf_created (record { library_id = 1; section_id = 3; shelf_index = 0; notes = none }) 4 9

-- Another library may not move the shelf.
abbrev theft : Change
theft =
    shelf_updated
      (record {
        shelf_id = 4;
        library_id = 2;
        section_id = some 3;
        shelf_index = none;
        notes = none;
      })
      10

abbrev home : Places
home = apply theft (apply top_shelf (apply left_side (apply oak (apply study no_places))))

home-Reachable : Reachable home
unfolding apply
home-Reachable =
    step _ theft tt
      (step _ top_shelf tt (step _ left_side tt (step _ oak refl (step no_places study tt start))))

Reachable-IsPlaced_example : IsPlaced home
Reachable-IsPlaced_example = Reachable-IsPlaced home home-Reachable

validate_sound_example : Refuses home 1 1 2 3 4 ⊎ IsPosition home 1 1 2 3 4
validate_sound_example = validate_sound home 1 1 2 3 4

get_shelf-validate_example :
    (x : Section) × (b : Bookcase) × (r : Room) × (section_by_id 3 home.sections ≡ some x)
    × (validate 1 b.room_id x.bookcase_id 3 4 home ≡ (
      ok (record { room = r; bookcase_id = x.bookcase_id; section_id = 3; shelf_id = 4 }),
      home,
    ))
unfolding apply get_shelf_for_library
get_shelf-validate_example =
    get_shelf-validate home 4 1 (Reachable-IsPlaced home home-Reachable) refl

-- ===== src/Club/Cycles.antt =====
-- app/application/use_cases/bookclub/cycles.py, with book_club_cycle_repository.py.
pub mod Machine
use jinbocho_catalog_v.Base.{ℕ, String, Bool, Option, none, some, List, not, ◌==◌, str_eq}
use jinbocho_catalog_v.Base.Table
use jinbocho_catalog_v.Domain.Book.{OwnedBook}
use jinbocho_catalog_v.Domain.Record.{BibliographicRecord}
use jinbocho_catalog_v.Domain.Errors.{lookup_error, permission_error, value_error}
use jinbocho_catalog_v.Exec.{Exec, pure, gets, modify, or_raise, raise_if, ◌>>=◌, ◌>>◌}
use jinbocho_catalog_v.Club.State.{
  BookClubCycleStatus, reading, archived, BookClubCycle, can_transition_to, Club,
}

abbrev pub record_by_id : ℕ → List BibliographicRecord → Option BibliographicRecord
record_by_id k records = Table.get (λ (r : BibliographicRecord). r.id) k records

abbrev pub club_book_by_id : ℕ → List OwnedBook → Option OwnedBook
club_book_by_id k books = Table.get (λ (b : OwnedBook). b.id) k books

abbrev pub cycle_by_id : ℕ → List BookClubCycle → Option BookClubCycle
cycle_by_id k cycles = Table.get (λ (c : BookClubCycle). c.id) k cycles

unfoldable pub find_record : ℕ → Exec Club (Option BibliographicRecord)
find_record k = gets (λ s. record_by_id k s.records)

unfoldable pub find_cycle : ℕ → Exec Club (Option BookClubCycle)
find_cycle k = gets (λ s. cycle_by_id k s.cycles)

unfoldable pub add_cycle : BookClubCycle → Exec Club BookClubCycle
add_cycle cycle = do modify (λ s. record s { cycles = Table.insert cycle s.cycles }); pure cycle

-- The columns that `save` assigns to the row of the cycle.
abbrev pub assign : BookClubCycle → BookClubCycle → BookClubCycle
assign old new = record old {
  title = new.title;
  status = new.status;
  owned_book_id = new.owned_book_id;
  reading_start = new.reading_start;
  reading_end = new.reading_end;
}

unfoldable pub save_cycle : BookClubCycle → Exec Club BookClubCycle
save_cycle cycle = do
  found ← gets (λ s. cycle_by_id cycle.id s.cycles)
  row ← or_raise found lookup_error
  modify (λ s. record s {
    cycles =
        Table.update_where (λ (c : BookClubCycle). c.id == cycle.id) (λ c. assign c cycle) s.cycles;
  })
  pure (assign row cycle)

pub record CreateCycleInput : Type 0 where
  pub library_id : ℕ
  pub created_by : ℕ
  pub bibliographic_record_id : ℕ
  pub title : String
  pub owned_book_id : Option ℕ
  pub reading_start : Option ℕ
  pub reading_end : Option ℕ

-- The check of the copy, where one is given.
unfoldable pub check_copy : ℕ → Option ℕ → Exec Club (Unit {0})
check_copy library_id none = pure tt
check_copy library_id (some book_id) = do
  found ← gets (λ s. club_book_by_id book_id s.books)
  book ← or_raise found lookup_error
  raise_if (not (book.library_id == library_id)) permission_error

module _ (strip : String → String) where
  -- `BookClubCycle.__post_init__`
  abbrev pub is_blank : String → Bool
  is_blank title = str_eq (strip title) ""

  unfoldable pub create_cycle : CreateCycleInput → (new_id now : ℕ) → Exec Club BookClubCycle
  unfolding find_record check_copy add_cycle
  create_cycle inp new_id now = do
    found ← find_record inp.bibliographic_record_id
    rec ← or_raise found lookup_error
    raise_if (not (rec.library_id == inp.library_id)) permission_error
    check_copy inp.library_id inp.owned_book_id
    raise_if (is_blank inp.title) value_error
    add_cycle (record {
      id = new_id;
      library_id = inp.library_id;
      bibliographic_record_id = inp.bibliographic_record_id;
      title = inp.title;
      created_by = inp.created_by;
      owned_book_id = inp.owned_book_id;
      status = reading;
      reading_start = inp.reading_start;
      reading_end = inp.reading_end;
      created_at = now;
    })

-- `GetCycleUseCase`, and the first lines of the use cases on a cycle
unfoldable pub get_cycle : (cycle_id library_id : ℕ) → Exec Club BookClubCycle
unfolding find_cycle
get_cycle cycle_id library_id = do
  found ← find_cycle cycle_id
  cycle ← or_raise found lookup_error
  raise_if (not (cycle.library_id == library_id)) permission_error
  pure cycle

unfoldable pub advance_cycle_status :
    (cycle_id library_id : ℕ) → BookClubCycleStatus → Exec Club BookClubCycle
unfolding get_cycle save_cycle
advance_cycle_status cycle_id library_id target = do
  cycle ← get_cycle cycle_id library_id
  raise_if (not (can_transition_to cycle target)) value_error
  save_cycle (record cycle { status = target })

unfoldable pub archive_cycle : (cycle_id library_id : ℕ) → Exec Club BookClubCycle
unfolding get_cycle save_cycle
archive_cycle cycle_id library_id = do
  cycle ← get_cycle cycle_id library_id
  raise_if (not (can_transition_to cycle archived)) value_error
  save_cycle (record cycle { status = archived })

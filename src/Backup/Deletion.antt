-- ===== src/Backup/Deletion.antt =====
-- app/application/use_cases/backup/delete_library_data.py, with the `delete_all_by_library` of the
-- repositories and the foreign keys of app/infrastructure/models: those that cascade, those that set null, and
-- those that restrict. Kids' rows that hang on a copy are left out.
pub mod Wiped
use jinbocho_catalog_v.Base.{
  ℕ, suc, String, Bool, true, false, Option, none, some, List, [], ◌∷◌, ◌==◌, ◌||◌, not, contains,
  any, length, or_else, if◌then◌else◌,
}
use jinbocho_catalog_v.Base.Table
use jinbocho_catalog_v.Domain.Book.{OwnedBook, BookHistory}
use jinbocho_catalog_v.Domain.Record.{BibliographicRecord}
use jinbocho_catalog_v.Domain.Activity.{BookRead, BookAbandonment, BookLoan, BookRating}
use jinbocho_catalog_v.Domain.Errors.{integrity_error}
use jinbocho_catalog_v.Exec.{Exec, pure, gets, modify, raise_if, ◌>>=◌, ◌>>◌}
use jinbocho_catalog_v.Catalog.State.{Catalog}
use jinbocho_catalog_v.Places.State.{Room, Bookcase, Section, Shelf, Places}
use jinbocho_catalog_v.Club.State.{BookClubCycle, BookClubProposal, BookClubVote}
use jinbocho_catalog_v.Services.Pagination.{fetch_all_pages, page_of}
use jinbocho_catalog_v.Backup.Session.{WishlistItem}

-- app/domain/entities/removed_member.py
pub data LibraryRole : Type 0 where
  admin editor viewer : LibraryRole

pub record RemovedMember : Type 0 where
  pub id : ℕ
  pub library_id : ℕ
  pub full_name : String
  pub email : String
  pub role : LibraryRole
  pub removed_at : ℕ

-- The tables that a deletion touches.
pub record Service : Type 0 where
  pub catalog : Catalog
  pub places : Places
  pub wishlist : List WishlistItem
  pub cycles : List BookClubCycle
  pub proposals : List BookClubProposal
  pub votes : List BookClubVote
  pub removed_members : List RemovedMember

pub record DeleteLibraryDataOutput : Type 0 where
  pub rooms_deleted : ℕ
  pub bookcases_deleted : ℕ
  pub records_deleted : ℕ
  pub owned_books_deleted : ℕ
  pub removed_members_deleted : ℕ

-- The rows of a query, fetched page by page.
abbrev pub all_rows : {A : Type 0} → List A → List A
all_rows rows = or_else (fetch_all_pages (page_of rows) 500 (suc (length rows))) []

abbrev pub ids_of : {A : Type 0} → (A → ℕ) → List A → List ℕ
ids_of id [] = []
ids_of id (x ∷ xs) = id x ∷ ids_of id xs

-- `ON DELETE SET NULL`
abbrev pub null_if : List ℕ → Option ℕ → Option ℕ
null_if gone none = none
null_if gone (some k) = if contains k gone then none else some k

abbrev pub each : {A : Type 0} → (A → A) → List A → List A
each f [] = []
each f (x ∷ xs) = f x ∷ each f xs

module _ (library_id : ℕ) where
  abbrev pub is_own_book : OwnedBook → Bool
  is_own_book b = b.library_id == library_id

  abbrev pub is_own_record : BibliographicRecord → Bool
  is_own_record r = r.library_id == library_id

  abbrev pub is_own_bookcase : Bookcase → Bool
  is_own_bookcase b = b.library_id == library_id

  abbrev pub is_own_room : Room → Bool
  is_own_room r = r.library_id == library_id

  abbrev pub is_own_member : RemovedMember → Bool
  is_own_member m = m.library_id == library_id

  -- The copies, with the rows that cascade; a cycle forgets its copy.
  unfoldable pub delete_books : Exec Service (Unit {0})
  delete_books = modify (λ s.
      let gone = ids_of (λ (b : OwnedBook). b.id) (Table.select is_own_book s.catalog.books) in
      record s {
        catalog = record s.catalog {
          books = Table.delete_where is_own_book s.catalog.books;
          reads =
              Table.delete_where (λ (r : BookRead). contains r.owned_book_id gone) s.catalog.reads;
          abandonments =
              Table.delete_where (λ (a : BookAbandonment). contains a.owned_book_id gone)
                s.catalog.abandonments;
          loans =
              Table.delete_where (λ (l : BookLoan). contains l.owned_book_id gone) s.catalog.loans;
          ratings =
              Table.delete_where (λ (r : BookRating). contains r.owned_book_id gone)
                s.catalog.ratings;
        };
        cycles =
            each (λ (c : BookClubCycle). record c { owned_book_id = null_if gone c.owned_book_id })
              s.cycles;
      })

  -- `ON DELETE RESTRICT`: a copy or a cycle with one of the records.
  abbrev pub is_held : List ℕ → Service → Bool
  is_held gone s =
      any (λ (b : OwnedBook). contains b.bibliographic_record_id gone) s.catalog.books
      || any (λ (c : BookClubCycle). contains c.bibliographic_record_id gone) s.cycles

  abbrev pub own_records : Service → List ℕ
  own_records s =
      ids_of (λ (r : BibliographicRecord). r.id) (Table.select is_own_record s.catalog.records)

  -- The records, with the wishes, proposals and votes that cascade.
  unfoldable pub delete_records : Exec Service (Unit {0})
  delete_records = do
    held ← gets (λ s. is_held (own_records s) s)
    raise_if held integrity_error
    modify (λ s.
        let gone = own_records s in
        let proposed : BookClubProposal → Bool = λ p. contains p.bibliographic_record_id gone in
        let dropped = ids_of (λ (p : BookClubProposal). p.id) (Table.select proposed s.proposals) in
        record s {
          catalog = record s.catalog {
            records = Table.delete_where is_own_record s.catalog.records;
          };
          wishlist =
              Table.delete_where (λ (w : WishlistItem). contains w.bibliographic_record_id gone)
                s.wishlist;
          proposals = Table.delete_where proposed s.proposals;
          votes = Table.delete_where (λ (v : BookClubVote). contains v.proposal_id dropped) s.votes;
        })

  abbrev pub own_bookcases : Places → List ℕ
  own_bookcases s = ids_of (λ (b : Bookcase). b.id) (Table.select is_own_bookcase s.bookcases)

  abbrev pub sections_below : Places → List ℕ
  sections_below s =
      ids_of (λ (x : Section). x.id)
        (Table.select (λ (x : Section). contains x.bookcase_id (own_bookcases s)) s.sections)

  abbrev pub shelves_below : Places → List ℕ
  shelves_below s =
      ids_of (λ (x : Shelf). x.id)
        (Table.select (λ (x : Shelf). contains x.section_id (sections_below s)) s.shelves)

  abbrev pub forget_bookcase : Places → OwnedBook → OwnedBook
  forget_bookcase s b = record b {
    bookcase_id = null_if (own_bookcases s) b.bookcase_id;
    section_id = null_if (sections_below s) b.section_id;
    shelf_id = null_if (shelves_below s) b.shelf_id;
  }

  -- The bookcases, with the sections and shelves that cascade; a copy forgets its place.
  unfoldable pub delete_bookcases : Exec Service (Unit {0})
  delete_bookcases = modify (λ s. record s {
    places = record s.places {
      bookcases = Table.delete_where is_own_bookcase s.places.bookcases;
      sections =
          Table.delete_where (λ (x : Section). contains x.bookcase_id (own_bookcases s.places))
            s.places.sections;
      shelves =
          Table.delete_where (λ (x : Shelf). contains x.section_id (sections_below s.places))
            s.places.shelves;
    };
    catalog = record s.catalog { books = each (forget_bookcase s.places) s.catalog.books };
  })

  abbrev pub own_rooms : List Room → List ℕ
  own_rooms rooms = ids_of (λ (r : Room). r.id) (Table.select is_own_room rooms)

  abbrev pub forget_room : List Room → OwnedBook → OwnedBook
  forget_room rooms b = record b { room_id = null_if (own_rooms rooms) b.room_id }

  -- The rooms, where no bookcase is left in one; a copy forgets its room.
  unfoldable pub delete_rooms : Exec Service (Unit {0})
  delete_rooms = do
    held ← gets (λ s.
        any (λ (b : Bookcase). contains b.room_id (own_rooms s.places.rooms)) s.places.bookcases)
    raise_if held integrity_error
    modify (λ s. record s {
      places = record s.places { rooms = Table.delete_where is_own_room s.places.rooms };
      catalog = record s.catalog { books = each (forget_room s.places.rooms) s.catalog.books };
    })

  unfoldable pub delete_members : Exec Service (Unit {0})
  delete_members =
      modify
        (λ s. record s { removed_members = Table.delete_where is_own_member s.removed_members })

  -- The history has no foreign key: its rows go by the ids of the copies.
  unfoldable pub delete_by_owned_book_ids : List ℕ → Exec Service (Unit {0})
  delete_by_owned_book_ids book_ids = modify (λ s. record s {
    catalog = record s.catalog {
      history =
          Table.delete_where (λ (h : BookHistory). contains h.owned_book_id book_ids)
            s.catalog.history;
    };
  })

  unfoldable pub delete_library_data : Exec Service DeleteLibraryDataOutput
  unfolding delete_books delete_records delete_bookcases delete_rooms delete_members
      delete_by_owned_book_ids
  delete_library_data = do
    books ← gets (λ s. all_rows (Table.select is_own_book s.catalog.books))
    delete_by_owned_book_ids (ids_of (λ (b : OwnedBook). b.id) books)
    delete_books
    records ← gets (λ s. all_rows (Table.select is_own_record s.catalog.records))
    delete_records
    bookcases ← gets (λ s. all_rows (Table.select is_own_bookcase s.places.bookcases))
    delete_bookcases
    rooms ← gets (λ s. all_rows (Table.select is_own_room s.places.rooms))
    delete_rooms
    members ← gets (λ s. Table.select is_own_member s.removed_members)
    delete_members
    pure (record {
      rooms_deleted = length rooms;
      bookcases_deleted = length bookcases;
      records_deleted = length records;
      owned_books_deleted = length books;
      removed_members_deleted = length members;
    })

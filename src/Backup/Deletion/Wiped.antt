-- ===== src/Backup/Deletion/Wiped.antt =====
-- When a deletion fails, and what it leaves when it does not.
use jinbocho_catalog_v.Base.{
  ℕ, suc, ◌≡◌, refl, Bool, true, false, inl, inr, List, [], ◌∷◌, arith, contains, any, length,
  Bool-cases, ap, or_else,
}
use jinbocho_catalog_v.Base.Table
use jinbocho_catalog_v.Domain.Book.{OwnedBook}
use jinbocho_catalog_v.Domain.Errors.{integrity_error}
use jinbocho_catalog_v.Exec.{ok, err}
use jinbocho_catalog_v.Places.State.{Bookcase}
use jinbocho_catalog_v.Club.State.{BookClubCycle}
use jinbocho_catalog_v.Services.Pagination.{fetch_all_pages-rows, page_of}
use jinbocho_catalog_v.Backup.Deletion.{
  Service, DeleteLibraryDataOutput, ids_of, all_rows, each, null_if, own_records, own_rooms,
  is_own_book, is_own_record, is_own_bookcase, is_own_room, is_own_member, forget_bookcase,
  forget_room, delete_library_data, delete_books, delete_records, delete_bookcases, delete_rooms,
  delete_members, delete_by_owned_book_ids,
}

all_rows_lem : {A : Type 0} (rows : List A) → all_rows rows ≡ rows
all_rows_lem rows =
    ap (λ o. or_else o [])
      (fetch_all_pages-rows rows (page_of rows) 500 (suc (length rows)) (λ o. refl) (omega arith)
        (omega arith))

select-delete_where :
    {A : Type 0} (p : A → Bool) (rows : List A) → Table.select p (Table.delete_where p rows) ≡ []
select-delete_where p [] = refl
select-delete_where p (r ∷ rows) = ground (arith, select-delete_where p rows)

-- A cycle that forgets its copy keeps its record.
any-each :
    (held gone : List ℕ) (cycles : List BookClubCycle)
    → any
        (λ (c : BookClubCycle). contains c.bibliographic_record_id held)
        (each
          (λ (c : BookClubCycle). record c { owned_book_id = null_if gone c.owned_book_id })
          cycles)
      ≡ any (λ (c : BookClubCycle). contains c.bibliographic_record_id held) cycles
any-each held gone [] = refl
any-each held gone (c ∷ cycles) = ground (arith, any-each held gone cycles)

-- Changes that keep the library of a copy keep that there is none of it.
select-each :
    (p : OwnedBook → Bool) (f : OwnedBook → OwnedBook) (rows : List OwnedBook)
    → ((b : OwnedBook) → p (f b) ≡ p b)
    → Table.select p rows ≡ []
    → Table.select p (each f rows) ≡ []
select-each p f [] keeps h = refl
select-each p f (b ∷ rows) keeps h = elim (Bool-cases (p b)) [
  | inl own ↦ absurd (ground arith)
  | inr other ↦ ground (arith, keeps b, select-each p f rows keeps (ground arith))
]

module _ (library_id : ℕ) (s : Service) where
  -- If a cycle of the book club is about a record of the library, the deletion of the library's data fails
  -- with an integrity error: the foreign key of the cycle restricts the deletion of the record, and nothing
  -- deletes the cycle.
  pub delete_library_data-stuck :
      any
          (λ (c : BookClubCycle). contains c.bibliographic_record_id (own_records library_id s))
          s.cycles
        ≡ true
      → (delete_library_data library_id s).0 ≡ err integrity_error
  unfolding delete_library_data delete_by_owned_book_ids delete_books delete_records
  delete_library_data-stuck h =
      let gone =
        ids_of (λ (b : OwnedBook). b.id) (Table.select (is_own_book library_id) s.catalog.books) in
      ground (arith, h, any-each (own_records library_id s) gone s.cycles)

  -- If no cycle and no copy of another library is about a record of the library, and no bookcase of another
  -- library stands in one of its rooms, the deletion returns, leaves no copy, record, bookcase, room or removed
  -- member of the library, and counts the copies and the records that it deleted.
  pub delete_library_data-wipes :
      any
          (λ (c : BookClubCycle). contains c.bibliographic_record_id (own_records library_id s))
          s.cycles
        ≡ false
      → any
          (λ (b : OwnedBook). contains b.bibliographic_record_id (own_records library_id s))
          (Table.delete_where (is_own_book library_id) s.catalog.books)
        ≡ false
      → any
          (λ (b : Bookcase). contains b.room_id (own_rooms library_id s.places.rooms))
          (Table.delete_where (is_own_bookcase library_id) s.places.bookcases)
        ≡ false
      → let s' = (delete_library_data library_id s).1 in
        (out : DeleteLibraryDataOutput) × ((delete_library_data library_id s).0 ≡ ok out)
        × (Table.select (is_own_book library_id) s'.catalog.books ≡ [])
        × (Table.select (is_own_record library_id) s'.catalog.records ≡ [])
        × (Table.select (is_own_bookcase library_id) s'.places.bookcases ≡ [])
        × (Table.select (is_own_room library_id) s'.places.rooms ≡ [])
        × (Table.select (is_own_member library_id) s'.removed_members ≡ [])
        × (out.owned_books_deleted ≡ length (Table.select (is_own_book library_id) s.catalog.books))
        × (out.records_deleted ≡ length (Table.select (is_own_record library_id) s.catalog.records))
  unfolding delete_library_data delete_by_owned_book_ids delete_books delete_records
      delete_bookcases delete_rooms delete_members
  delete_library_data-wipes free lent apart =
      let gone =
        ids_of (λ (b : OwnedBook). b.id) (Table.select (is_own_book library_id) s.catalog.books) in
      let cycles = any-each (own_records library_id s) gone s.cycles in
      let rest = Table.delete_where (is_own_book library_id) s.catalog.books in
      let own = select-delete_where (is_own_book library_id) s.catalog.books in
      let shelved =
        select-each (is_own_book library_id) (forget_bookcase library_id s.places) rest (λ b. refl)
          own in
      let unroomed =
        select-each (is_own_book library_id) (forget_room library_id s.places.rooms)
          (each (forget_bookcase library_id s.places) rest) (λ b. refl) shelved in
      let books = all_rows_lem (Table.select (is_own_book library_id) s.catalog.books) in
      let records = all_rows_lem (Table.select (is_own_record library_id) s.catalog.records) in
      (
        record {
          rooms_deleted = length (all_rows (Table.select (is_own_room library_id) s.places.rooms));
          bookcases_deleted =
              length (all_rows (Table.select (is_own_bookcase library_id) s.places.bookcases));
          records_deleted =
              length (all_rows (Table.select (is_own_record library_id) s.catalog.records));
          owned_books_deleted =
              length (all_rows (Table.select (is_own_book library_id) s.catalog.books));
          removed_members_deleted =
              length (Table.select (is_own_member library_id) s.removed_members);
        },
        ground (arith, free, lent, apart, cycles),
        ground (arith, free, lent, apart, cycles, unroomed),
        ground (
          arith,
          free,
          lent,
          apart,
          cycles,
          select-delete_where (is_own_record library_id) s.catalog.records,
        ),
        ground (
          arith,
          free,
          lent,
          apart,
          cycles,
          select-delete_where (is_own_bookcase library_id) s.places.bookcases,
        ),
        ground (
          arith,
          free,
          lent,
          apart,
          cycles,
          select-delete_where (is_own_room library_id) s.places.rooms,
        ),
        ground (
          arith,
          free,
          lent,
          apart,
          cycles,
          select-delete_where (is_own_member library_id) s.removed_members,
        ),
        ap length books,
        ap length records,
      )

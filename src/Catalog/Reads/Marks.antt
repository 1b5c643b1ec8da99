-- ===== src/Catalog/Reads/Marks.antt =====
-- What marking a copy as read, and taking that back, does to the rows of the members.
use jinbocho_catalog_v.Base.{ℕ, ◌≡◌, Option, arith, ◌||◌, ◌&&◌, not}
use jinbocho_catalog_v.Base.Member.{same_pair}
use jinbocho_catalog_v.Exec.{ok}
use jinbocho_catalog_v.Catalog.State.{Catalog}
use jinbocho_catalog_v.Catalog.ReadRepo.{has_read}
use jinbocho_catalog_v.Catalog.Rows.{has_read-add, has_read-remove}
use jinbocho_catalog_v.Catalog.Reads.{mark_book_read, unmark_book_read}

-- A mark that returns adds the member to the readers of the copy, and changes neither who else has read
-- what nor the abandonments: a member who had given the copy up has then both read and abandoned it.
pub mark_book_read-reads :
    (book_id library_id user_id : ℕ) (read_at : Option ℕ) (now : ℕ) (s : Catalog) (book user : ℕ)
    → (mark_book_read book_id library_id user_id read_at now s).0 ≡ ok tt
    → let s' = (mark_book_read book_id library_id user_id read_at now s).1 in
      (has_read book user s'.reads
        ≡ (same_pair book_id user_id book user || has_read book user s.reads))
      × (s'.abandonments ≡ s.abandonments)
unfolding mark_book_read
mark_book_read-reads b lib u at now s c v h =
    (ground (arith, has_read-add b u at now c v s.reads), ground arith)

-- A mark that is taken back, when both calls return, leaves the member without a read of the copy, and
-- who else has read what as it was before the mark.
pub unmark-mark_book_read :
    (book_id library_id user_id : ℕ) (read_at : Option ℕ) (now : ℕ) (s : Catalog) (book user : ℕ)
    → (mark_book_read book_id library_id user_id read_at now s).0 ≡ ok tt
    → let s' = (mark_book_read book_id library_id user_id read_at now s).1 in
      has_read book user (unmark_book_read book_id library_id user_id s').1.reads
      ≡ (not (same_pair book_id user_id book user) && has_read book user s.reads)
unfolding mark_book_read unmark_book_read
unmark-mark_book_read b lib u at now s c v h =
    let s' = (mark_book_read b lib u at now s).1 in
    ground (arith, has_read-add b u at now c v s.reads, has_read-remove b u c v s'.reads)

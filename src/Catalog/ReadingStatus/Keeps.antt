-- ===== src/Catalog/ReadingStatus/Keeps.antt =====
-- What a change of the reading status keeps.
use jinbocho_catalog_v.Base.{ℕ, ◌≡◌, refl, ◌≢◌, ◌⊎◌, inl, inr, false, none, arith}
use jinbocho_catalog_v.Base.Member.{same_pair}
use jinbocho_catalog_v.Domain.Book.{ReadingStatus, to_read, reading, read, abandoned}
use jinbocho_catalog_v.Catalog.State.{Catalog}
use jinbocho_catalog_v.Catalog.BookRepo.{book_by_id}
use jinbocho_catalog_v.Catalog.ReadRepo.{has_read}
use jinbocho_catalog_v.Catalog.AbandonmentRepo.{has_abandoned}
use jinbocho_catalog_v.Catalog.Rows.{
  book_by_id-save, has_read-add, has_read-remove, has_abandoned-add, has_abandoned-remove,
}
use jinbocho_catalog_v.Catalog.Invariant.{IsExclusive, IsConsistent, save_rows-IsInStep}
use jinbocho_catalog_v.Catalog.ReadingStatus.{UpdateReadingStatusInput, mark, update_reading_status}
use jinbocho_catalog_v.Catalog.ReadingStatus.Marks.{mark_reads, mark_abandonments}
use jinbocho_catalog_v.Catalog.ReadingStatus.Effects.{stored, update_reading_status-state}

-- No choice leaves the caller with both rows.
pub mark-IsExclusive :
    (asked : ReadingStatus) (book user now : ℕ) (s : Catalog)
    → IsExclusive s.reads s.abandonments
    → let s' = (mark asked book user now s).1 in IsExclusive s'.reads s'.abandonments
unfolding mark
mark-IsExclusive to_read b u now s h c v =
    ground
      (arith, h c v, has_read-remove b u c v s.reads, has_abandoned-remove b u c v s.abandonments)
mark-IsExclusive reading b u now s h c v =
    ground (arith, h c v, has_abandoned-remove b u c v s.abandonments)
mark-IsExclusive read b u now s h c v = ground (
  arith,
  h c v,
  has_read-add b u none now c v s.reads,
  has_abandoned-remove b u c v s.abandonments,
)
mark-IsExclusive abandoned b u now s h c v = ground (
  arith,
  h c v,
  has_read-remove b u c v s.reads,
  has_abandoned-add b u none now c v s.abandonments,
)

-- A change of the reading status, whether it returns or raises, keeps the stored column in step
-- with the reader of each copy, and nobody has both read and abandoned one copy.
pub update_reading_status-IsConsistent :
    (inp : UpdateReadingStatusInput) (now : ℕ) (s : Catalog)
    → IsConsistent s
    → IsConsistent (update_reading_status inp now s).1
update_reading_status-IsConsistent inp now s h = elim (update_reading_status-state inp now s) [
  | inl same ↦ rw same h
  | inr (book, found, key, e) ↦ rw e (record {
    in_step = save_rows-IsInStep (stored inp now book) s.books refl h.in_step;
    exclusive = mark-IsExclusive inp.reading_status inp.book_id inp.changed_by now s h.exclusive;
  })
]

-- Whether it returns or raises, a change leaves alone what every other pair of a copy and a member
-- has read and abandoned.
pub update_reading_status-members :
    (inp : UpdateReadingStatusInput) (now : ℕ) (s : Catalog) (book user : ℕ)
    → (book ≢ inp.book_id) ⊎ (user ≢ inp.changed_by)
    → let s' = (update_reading_status inp now s).1 in
      (has_read book user s'.reads ≡ has_read book user s.reads)
      × (has_abandoned book user s'.abandonments ≡ has_abandoned book user s.abandonments)
update_reading_status-members inp now s b u other =
    let apart : same_pair inp.book_id inp.changed_by b u ≡ false = ground arith in
    elim (update_reading_status-state inp now s) [
      | inl same ↦ rw same (refl, refl)
      | inr (book, found, key, e) ↦ rw e (
        mark_reads inp.book_id inp.changed_by now s inp.reading_status b u apart,
        mark_abandonments inp.book_id inp.changed_by now s inp.reading_status b u apart,
      )
    ]

-- Whether it returns or raises, a change leaves every other copy as it is.
pub update_reading_status-books :
    (inp : UpdateReadingStatusInput) (now : ℕ) (s : Catalog) (k : ℕ)
    → k ≢ inp.book_id
    → book_by_id k (update_reading_status inp now s).1.books ≡ book_by_id k s.books
update_reading_status-books inp now s k ne = elim (update_reading_status-state inp now s) [
  | inl same ↦ rw same refl
  | inr (book, found, key, e) ↦
      rw e (ground (arith, book_by_id-save (stored inp now book) s.books k))
]

-- ===== src/Catalog/ReadingStatus/Marks.antt =====
-- The rows that a change of the reading status writes, before it saves the copy.
use jinbocho_catalog_v.Base.{ℕ, ◌≡◌, refl, false, Option, none, some, arith, ◌==◌, if◌then◌else◌}
use jinbocho_catalog_v.Base.Member.{same_pair}
use jinbocho_catalog_v.Domain.Book.{ReadingStatus, to_read, reading, read, abandoned, member_status}
use jinbocho_catalog_v.Exec.{ok}
use jinbocho_catalog_v.Catalog.State.{Catalog}
use jinbocho_catalog_v.Catalog.ReadRepo.{has_read}
use jinbocho_catalog_v.Catalog.AbandonmentRepo.{has_abandoned}
use jinbocho_catalog_v.Catalog.Rows.{
  has_read-add, has_read-remove, has_abandoned-add, has_abandoned-remove,
}
use jinbocho_catalog_v.Catalog.ReadingStatus.{reader_after, mark}

-- What the caller should see, from the status asked for and who still holds the copy.
abbrev pub view_after : ReadingStatus → Option ℕ → ℕ → ReadingStatus
view_after reading reader user = reading
view_after asked none user = asked
view_after asked (some other) user = if other == user then asked else reading

module _ (book user now : ℕ) (s : Catalog) where
  -- The rows that `mark` leaves, for any member and any copy.
  pub mark_reads :
      (asked : ReadingStatus) (c v : ℕ)
      → same_pair book user c v ≡ false
      → has_read c v (mark asked book user now s).1.reads ≡ has_read c v s.reads
  unfolding mark
  mark_reads to_read c v h = ground (arith, has_read-remove book user c v s.reads)
  mark_reads reading c v h = refl
  mark_reads read c v h = ground (arith, has_read-add book user none now c v s.reads)
  mark_reads abandoned c v h = ground (arith, has_read-remove book user c v s.reads)

  pub mark_abandonments :
      (asked : ReadingStatus) (c v : ℕ)
      → same_pair book user c v ≡ false
      → has_abandoned c v (mark asked book user now s).1.abandonments
        ≡ has_abandoned c v s.abandonments
  unfolding mark
  mark_abandonments to_read c v h =
      ground (arith, has_abandoned-remove book user c v s.abandonments)
  mark_abandonments reading c v h =
      ground (arith, has_abandoned-remove book user c v s.abandonments)
  mark_abandonments read c v h = ground (arith, has_abandoned-remove book user c v s.abandonments)
  mark_abandonments abandoned c v h =
      ground (arith, has_abandoned-add book user none now c v s.abandonments)

  pub mark_view :
      (asked : ReadingStatus) (reader : Option ℕ)
      → let s' = (mark asked book user now s).1 in
        member_status
          (reader_after asked reader user)
          (has_read book user s'.reads)
          (has_abandoned book user s'.abandonments)
        ≡ view_after asked reader user
  unfolding mark
  mark_view to_read reader = ground (
    arith,
    has_read-remove book user book user s.reads,
    has_abandoned-remove book user book user s.abandonments,
  )
  mark_view reading reader = refl
  mark_view read reader = ground (
    arith,
    has_read-add book user none now book user s.reads,
    has_abandoned-remove book user book user s.abandonments,
  )
  mark_view abandoned reader = ground (
    arith,
    has_read-remove book user book user s.reads,
    has_abandoned-add book user none now book user s.abandonments,
  )

  pub mark_books : (asked : ReadingStatus) → (mark asked book user now s).1.books ≡ s.books
  unfolding mark
  mark_books to_read = refl
  mark_books _ = refl

  pub mark_history : (asked : ReadingStatus) → (mark asked book user now s).1.history ≡ s.history
  unfolding mark
  mark_history to_read = refl
  mark_history _ = refl

  pub mark_returns : (asked : ReadingStatus) → (mark asked book user now s).0 ≡ ok tt
  unfolding mark
  mark_returns to_read = refl
  mark_returns _ = refl

-- ===== src/Catalog/Rows.antt =====
-- How the rows of copies, reads and abandonments look after a repository has written them.
use jinbocho_catalog_v.Base.{
  ℕ, ◌≡◌, refl, Bool, Bool-cases, ap, inl, inr, Option, none, some, List, [], ◌∷◌, arith, ◌==◌, not,
  ◌&&◌, ◌||◌, if◌then◌else◌,
}
use jinbocho_catalog_v.Base.Table
use jinbocho_catalog_v.Base.Member
use jinbocho_catalog_v.Domain.Book.{OwnedBook}
use jinbocho_catalog_v.Domain.Activity.{BookRead, BookAbandonment}
use jinbocho_catalog_v.Catalog.BookRepo.{book_by_id, save_rows, assign}
use jinbocho_catalog_v.Catalog.ReadRepo
use jinbocho_catalog_v.Catalog.ReadRepo.{has_read}
use jinbocho_catalog_v.Catalog.AbandonmentRepo
use jinbocho_catalog_v.Catalog.AbandonmentRepo.{has_abandoned}

-- The copy with the given id, after a save.
pub book_by_id-save :
    (new : OwnedBook) (books : List OwnedBook) (k : ℕ)
    → book_by_id k (save_rows new books) ≡ (
        if new.id == k
        then elim (book_by_id k books) [ none ↦ some new | some old ↦ some (assign old new) ]
        else book_by_id k books)
book_by_id-save new books k =
    Table.get-save (λ (b : OwnedBook). b.id) assign new books k (λ old. refl)

pub has_read-add :
    (b u : ℕ) (at : Option ℕ) (now c v : ℕ) (rows : List BookRead)
    → has_read c v (ReadRepo.add_rows b u at now rows)
      ≡ (Member.same_pair b u c v || has_read c v rows)
has_read-add b u at now c v rows =
    Member.has-put (λ (r : BookRead). r.owned_book_id) (λ r. r.user_id) (ReadRepo.touch at) _ c v
      rows (λ r. (refl, refl))

pub has_read-remove :
    (b u c v : ℕ) (rows : List BookRead)
    → has_read c v (ReadRepo.remove_rows b u rows)
      ≡ (not (Member.same_pair b u c v) && has_read c v rows)
has_read-remove b u c v rows =
    Member.has-drop_pair (λ (r : BookRead). r.owned_book_id) (λ r. r.user_id) b u c v rows

pub has_abandoned-add :
    (b u : ℕ) (at : Option ℕ) (now c v : ℕ) (rows : List BookAbandonment)
    → has_abandoned c v (AbandonmentRepo.add_rows b u at now rows)
      ≡ (Member.same_pair b u c v || has_abandoned c v rows)
has_abandoned-add b u at now c v rows =
    Member.has-put (λ (r : BookAbandonment). r.owned_book_id) (λ r. r.user_id)
      (AbandonmentRepo.touch at) _ c v rows (λ r. (refl, refl))

pub has_abandoned-remove :
    (b u c v : ℕ) (rows : List BookAbandonment)
    → has_abandoned c v (AbandonmentRepo.remove_rows b u rows)
      ≡ (not (Member.same_pair b u c v) && has_abandoned c v rows)
has_abandoned-remove b u c v rows =
    Member.has-drop_pair (λ (r : BookAbandonment). r.owned_book_id) (λ r. r.user_id) b u c v rows

-- A row that is found has the key.
pub book_by_id-id :
    (k : ℕ) (books : List OwnedBook) (b : OwnedBook) → book_by_id k books ≡ some b → b.id ≡ k
book_by_id-id k [] b h = cc
book_by_id-id k (x ∷ books) b h = ground (arith, book_by_id-id k books b)

pub book_by_id-delete_where :
    (gone : ℕ → Bool) (books : List OwnedBook) (k : ℕ)
    → book_by_id k (Table.delete_where (λ (b : OwnedBook). gone b.id) books)
      ≡ (if gone k then none else book_by_id k books)
book_by_id-delete_where gone [] k = ground arith
book_by_id-delete_where gone (b ∷ books) k = elim (Bool-cases (b.id == k)) [
  | inl e ↦
      let same : b.id ≡ k = ground arith in
      ground (arith, book_by_id-delete_where gone books k, ap gone same)
  | inr e ↦ ground (arith, book_by_id-delete_where gone books k)
]

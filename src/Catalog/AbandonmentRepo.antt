-- ===== src/Catalog/AbandonmentRepo.antt =====
-- app/infrastructure/repositories/book_abandonment_repository.py. The row that `add` gives back, which
-- no use case reads, is left out.
use jinbocho_catalog_v.Base.{ℕ, Bool, Option, or_else, List}
use jinbocho_catalog_v.Base.Member
use jinbocho_catalog_v.Domain.Activity.{BookAbandonment}
use jinbocho_catalog_v.Catalog.State.{Catalog}
use jinbocho_catalog_v.Exec.{Exec, gets, modify}

abbrev pub has_abandoned : ℕ → ℕ → List BookAbandonment → Bool
has_abandoned book user rows =
    Member.has (λ (r : BookAbandonment). r.owned_book_id) (λ r. r.user_id) book user rows

abbrev pub touch : Option ℕ → BookAbandonment → BookAbandonment
touch abandoned_at r = record r { abandoned_at = or_else abandoned_at r.abandoned_at }

abbrev pub add_rows : ℕ → ℕ → Option ℕ → ℕ → List BookAbandonment → List BookAbandonment
add_rows book user abandoned_at now rows =
    Member.put (λ (r : BookAbandonment). r.owned_book_id) (λ r. r.user_id) (touch abandoned_at)
      (record { owned_book_id = book; user_id = user; abandoned_at = or_else abandoned_at now })
      rows

abbrev pub remove_rows : ℕ → ℕ → List BookAbandonment → List BookAbandonment
remove_rows book user rows =
    Member.drop_pair (λ (r : BookAbandonment). r.owned_book_id) (λ r. r.user_id) book user rows

unfoldable pub add : ℕ → ℕ → Option ℕ → ℕ → Exec Catalog (Unit {0})
add book user abandoned_at now =
    modify (λ s. record s { abandonments = add_rows book user abandoned_at now s.abandonments })

unfoldable pub remove : ℕ → ℕ → Exec Catalog (Unit {0})
remove book user = modify (λ s. record s { abandonments = remove_rows book user s.abandonments })

unfoldable pub is_abandoned : ℕ → ℕ → Exec Catalog Bool
is_abandoned book user = gets (λ s. has_abandoned book user s.abandonments)

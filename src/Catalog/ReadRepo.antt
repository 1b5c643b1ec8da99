-- ===== src/Catalog/ReadRepo.antt =====
-- app/infrastructure/repositories/book_read_repository.py. The row that `add` gives back is left out: no
-- use case reads it, and the one that marks a copy as read only passes it on.
use jinbocho_catalog_v.Base.{ℕ, Bool, Option, or_else, List, if◌then◌else◌}
use jinbocho_catalog_v.Base.Table
use jinbocho_catalog_v.Base.Member
use jinbocho_catalog_v.Domain.Activity.{BookRead}
use jinbocho_catalog_v.Catalog.State.{Catalog}
use jinbocho_catalog_v.Exec.{Exec, gets, modify}

abbrev pub has_read : ℕ → ℕ → List BookRead → Bool
has_read book user rows =
    Member.has (λ (r : BookRead). r.owned_book_id) (λ r. r.user_id) book user rows

-- A given date overwrites the date of the row; a new row without one is dated now.
abbrev pub touch : Option ℕ → BookRead → BookRead
touch read_at r = record r { read_at = or_else read_at r.read_at }

abbrev pub add_rows : ℕ → ℕ → Option ℕ → ℕ → List BookRead → List BookRead
add_rows book user read_at now rows =
    Member.put (λ (r : BookRead). r.owned_book_id) (λ r. r.user_id) (touch read_at)
      (record { owned_book_id = book; user_id = user; read_at = or_else read_at now }) rows

abbrev pub remove_rows : ℕ → ℕ → List BookRead → List BookRead
remove_rows book user rows =
    Member.drop_pair (λ (r : BookRead). r.owned_book_id) (λ r. r.user_id) book user rows

unfoldable pub add : ℕ → ℕ → Option ℕ → ℕ → Exec Catalog (Unit {0})
add book user read_at now =
    modify (λ s. record s { reads = add_rows book user read_at now s.reads })

unfoldable pub remove : ℕ → ℕ → Exec Catalog (Unit {0})
remove book user = modify (λ s. record s { reads = remove_rows book user s.reads })

unfoldable pub is_read : ℕ → ℕ → Exec Catalog Bool
is_read book user = gets (λ s. has_read book user s.reads)

-- A read that is there stays as it is. The id of a restored row is new, so no row has it.
abbrev pub restore_rows : BookRead → List BookRead → List BookRead
restore_rows r rows = if has_read r.owned_book_id r.user_id rows then rows else Table.insert r rows

unfoldable pub restore : BookRead → Exec Catalog (Unit {0})
restore r = modify (λ s. record s { reads = restore_rows r s.reads })

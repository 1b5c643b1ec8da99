-- ===== src/Backup/WishlistRepo.antt =====
-- app/infrastructure/repositories/wishlist_repository.py, as far as an import uses it.
use jinbocho_catalog_v.Base.{ℕ, Bool, List, ◌==◌, ◌&&◌, is_some, if◌then◌else◌}
use jinbocho_catalog_v.Base.Table
use jinbocho_catalog_v.Exec.{Exec, gets, modify}
use jinbocho_catalog_v.Backup.Session.{WishlistItem}

abbrev pub is_wish : (user record_id : ℕ) → WishlistItem → Bool
is_wish user record_id w = w.user_id == user && w.bibliographic_record_id == record_id

unfoldable pub exists_for_user_and_record : (user record_id : ℕ) → Exec (List WishlistItem) Bool
exists_for_user_and_record user record_id =
    gets (λ rows. is_some (Table.find (is_wish user record_id) rows))

-- The id of a restored row is new, so no row has it.
abbrev pub restore_rows : WishlistItem → List WishlistItem → List WishlistItem
restore_rows w rows =
    if is_some (Table.find (is_wish w.user_id w.bibliographic_record_id) rows)
    then rows
    else Table.insert w rows

unfoldable pub restore : WishlistItem → Exec (List WishlistItem) (Unit {0})
restore w = modify (restore_rows w)

-- ===== src/Backup/Session.antt =====
-- The tables that an import writes, in one session, and the ids that `uuid4` has drawn.
use jinbocho_catalog_v.Base.{ℕ, String, Option, List}
use jinbocho_catalog_v.Exec.{Exec}
use jinbocho_catalog_v.Catalog.State.{Catalog}
use jinbocho_catalog_v.Places.State.{Places}

-- app/domain/entities/wishlist_item.py
pub record WishlistItem : Type 0 where
  pub id : ℕ
  pub library_id : ℕ
  pub user_id : ℕ
  pub bibliographic_record_id : ℕ
  pub added_at : ℕ
  pub notes : Option String
  pub priority : Option ℕ

pub record Session : Type 0 where
  pub catalog : Catalog
  pub places : Places
  pub wishlist : List WishlistItem
  pub drawn : ℕ

module _ {A : Type 0} where
  abbrev pub on_catalog : Exec Catalog A → Exec Session A
  on_catalog m s = let (r, c) = m s.catalog in (r, record s { catalog = c })

  abbrev pub on_places : Exec Places A → Exec Session A
  on_places m s = let (r, p) = m s.places in (r, record s { places = p })

  abbrev pub on_wishlist : Exec (List WishlistItem) A → Exec Session A
  on_wishlist m s = let (r, w) = m s.wishlist in (r, record s { wishlist = w })

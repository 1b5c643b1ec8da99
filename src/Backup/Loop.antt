-- ===== src/Backup/Loop.antt =====
-- The loop that `_import_records`, `_import_rooms`, `_import_bookcases`, `_import_sections`,
-- `_import_shelves` and `_import_books` share: an item that the library has gives its id, any other is
-- saved under a new id.
pub mod Covers
pub mod Again
use jinbocho_catalog_v.Base.{ℕ, suc, Option, none, some, List, [], ◌∷◌, ◌==◌, ◌+◌, if◌then◌else◌}
use jinbocho_catalog_v.Domain.Errors.{key_error}
use jinbocho_catalog_v.Exec.{Exec, ok, pure, or_raise, ◌>>=◌, ◌>>◌}
use jinbocho_catalog_v.Backup.Input.{IdMap}
use jinbocho_catalog_v.Backup.Session.{Session}

-- `ids.get(k)`
abbrev pub get : ℕ → IdMap → Option ℕ
get k [] = none
get k ((a, x) ∷ ids) = if a == k then some x else get k ids

-- `ids[k] = x`
abbrev pub set : ℕ → ℕ → IdMap → IdMap
set k x ids = (k, x) ∷ ids

-- `ids[k]`
abbrev pub get_or_raise : ℕ → IdMap → Exec Session ℕ
get_or_raise k ids = or_raise (get k ids) key_error

-- `ids.get(k) if k else None`
abbrev pub get_given : Option ℕ → IdMap → Option ℕ
get_given none ids = none
get_given (some k) ids = get k ids

-- The ids so far, and two of the counters of the output.
pub record Imported : Type 0 where
  pub ids : IdMap
  pub imported : ℕ
  pub deduped : ℕ

abbrev pub nothing_yet : Imported
nothing_yet = record { ids = []; imported = 0; deduped = 0 }

module _ (uuid4 : ℕ → ℕ) where
  -- The next of the ids that `uuid4` gives.
  unfoldable pub draw : Exec Session ℕ
  draw s = (ok (uuid4 s.drawn), record s { drawn = suc s.drawn })

  module _ {Item : Type 0} (id : Item → ℕ) (find : Item → Exec Session (Option ℕ))
      (add : Item → ℕ → Exec Session (Unit {0})) where
    -- An item that is there, or is to be saved.
    unfoldable pub keep_or_add : Item → Imported → Option ℕ → Exec Session Imported
    unfolding draw
    keep_or_add item acc (some existing) =
        pure (record acc { ids = set (id item) existing acc.ids; deduped = suc acc.deduped })
    keep_or_add item acc none = do
      new_id ← draw
      add item new_id
      pure (record acc { ids = set (id item) new_id acc.ids; imported = suc acc.imported })

    unfoldable pub import_all : List Item → Imported → Exec Session Imported
    unfolding keep_or_add
    import_all [] acc = pure acc
    import_all (item ∷ items) acc = do
      existing ← find item
      next ← keep_or_add item acc existing
      import_all items next

-- A `for` loop that only writes, and counts.
unfoldable pub restore_all : {Item : Type 0} → (Item → Exec Session ℕ) → List Item → Exec Session ℕ
restore_all one [] = pure 0
restore_all one (item ∷ items) = do n ← one item; m ← restore_all one items; pure (n + m)

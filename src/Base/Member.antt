-- ===== src/Base/Member.antt =====
-- Tables with one row for a book and a user (`book_reads`, `book_abandonments`), whose unique
-- constraint is on that pair.
use Prim.Native.Nat.{ℕ}
use mathlib.Core.Path.{◌≡◌}
use mathlib.Core.Bool.{Bool, true, false, not, ◌&&◌, ◌||◌}
use mathlib.Core.List.{List, [], ◌∷◌}
use native.Mathlib.Omega.{arith}
use jinbocho_catalog_v.Base.Tests.{◌==◌, if◌then◌else◌}
use jinbocho_catalog_v.Base.Lists.{any}
use jinbocho_catalog_v.Base.Table.{insert, delete_where, update_where}

-- `a = b ∧ u = v`, of two pairs of a book and a user
abbrev pub same_pair : ℕ → ℕ → ℕ → ℕ → Bool
same_pair b u c v = b == c && u == v

pub same_pair-ne : (b u c v : ℕ) → (u == v) ≡ false → same_pair b u c v ≡ false
same_pair-ne b u c v h = ground arith

module _ {Row : Type 0} (book user : Row → ℕ) where
  abbrev pub matches : ℕ → ℕ → Row → Bool
  matches b u r = same_pair (book r) (user r) b u

  -- Whether there is a row for the pair.
  abbrev pub has : ℕ → ℕ → List Row → Bool
  has b u rows = any (matches b u) rows

  -- Touch the row of the pair, or insert one.
  abbrev pub put : (Row → Row) → Row → List Row → List Row
  put touch new rows =
      if has (book new) (user new) rows
      then update_where (matches (book new) (user new)) touch rows
      else insert new rows

  abbrev pub drop_pair : ℕ → ℕ → List Row → List Row
  drop_pair b u rows = delete_where (matches b u) rows

  has-update_where :
      (touch : Row → Row) (b u c v : ℕ) (rows : List Row)
      → ((r : Row) → (book (touch r) ≡ book r) × (user (touch r) ≡ user r))
      → has c v (update_where (matches b u) touch rows) ≡ has c v rows
  has-update_where touch b u c v [] h = ground arith
  has-update_where touch b u c v (r ∷ rows) h =
      ground (arith, h r, has-update_where touch b u c v rows h)

  has-insert :
      (new : Row) (c v : ℕ) (rows : List Row)
      → has c v (insert new rows) ≡ (same_pair (book new) (user new) c v || has c v rows)
  has-insert new c v [] = ground arith
  has-insert new c v (r ∷ rows) = ground (arith, has-insert new c v rows)

  has_same :
      (b u c v : ℕ) (rows : List Row)
      → same_pair b u c v ≡ true
      → has b u rows ≡ true
      → has c v rows ≡ true
  has_same b u c v [] e h = ground arith
  has_same b u c v (r ∷ rows) e h = ground (arith, has_same b u c v rows)

  pub has-put :
      (touch : Row → Row) (new : Row) (c v : ℕ) (rows : List Row)
      → ((r : Row) → (book (touch r) ≡ book r) × (user (touch r) ≡ user r))
      → has c v (put touch new rows) ≡ (same_pair (book new) (user new) c v || has c v rows)
  has-put touch new c v rows h = ground (
    arith,
    has-update_where touch (book new) (user new) c v rows h,
    has-insert new c v rows,
    has_same (book new) (user new) c v rows,
  )

  pub has-drop_pair :
      (b u c v : ℕ) (rows : List Row)
      → has c v (drop_pair b u rows) ≡ (not (same_pair b u c v) && has c v rows)
  has-drop_pair b u c v [] = ground arith
  has-drop_pair b u c v (r ∷ rows) = ground (arith, has-drop_pair b u c v rows)

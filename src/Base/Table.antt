-- ===== src/Base/Table.antt =====
-- A database table as the list of its rows, in any order. A `select … where` keeps the rows that
-- pass a test; `session.get` finds a row by its primary key; a saved entity overwrites the columns
-- that the repository assigns, or is inserted. The repositories of app/infrastructure/repositories
-- are written over these.
use Prim.Native.Nat.{ℕ, suc, ◌≤◌}
use mathlib.Core.Path.{◌≡◌, refl, ap}
use mathlib.Core.Logic.{◌⊎◌, inl, inr}
use mathlib.Core.Bool.{Bool, true, false}
use mathlib.Core.List.{List, [], ◌∷◌, ◌++◌}
use mathlib.Core.Option.{Option, none, some}
use native.Mathlib.Omega.{arith}
use jinbocho_catalog_v.Base.Tests.{◌==◌, if◌then◌else◌, Bool-cases, Option-cases, is_some}
use jinbocho_catalog_v.Base.Lists.{count_if, any, contains, All}

module _ {Row : Type 0} where
  -- `.scalars().first()` and `.scalar_one_or_none()`
  abbrev pub find : (Row → Bool) → List Row → Option Row
  find p [] = none
  find p (r ∷ rows) = if p r then some r else find p rows

  -- `.scalars().all()`
  abbrev pub select : (Row → Bool) → List Row → List Row
  select p [] = []
  select p (r ∷ rows) = if p r then r ∷ select p rows else select p rows

  -- `delete(...).where(...)`
  abbrev pub delete_where : (Row → Bool) → List Row → List Row
  delete_where p [] = []
  delete_where p (r ∷ rows) = if p r then delete_where p rows else r ∷ delete_where p rows

  -- `update` of the rows that pass a test
  abbrev pub update_where : (Row → Bool) → (Row → Row) → List Row → List Row
  update_where p f [] = []
  update_where p f (r ∷ rows) = (if p r then f r else r) ∷ update_where p f rows

  -- `session.add`
  abbrev pub insert : Row → List Row → List Row
  insert r rows = rows ++ (r ∷ [])

  pub find-All :
      (P : Row → Type 0) (p : Row → Bool) (rows : List Row) {r : Row}
      → find p rows ≡ some r
      → All P rows
      → P r
  find-All P p [] {r} h all = absurd (ground arith)
  find-All P p (x ∷ rows) {r} h all = elim (Bool-cases (p x)) [
    | inl hit ↦ let same : x ≡ r = ground arith in rw (← same) all.0
    | inr miss ↦ find-All P p rows (ground arith) all.1
  ]

  pub find-insert :
      (p : Row → Bool) (r : Row) (rows : List Row)
      → find p (insert r rows)
        ≡ elim (find p rows) [ none ↦ if p r then some r else none | some a ↦ some a ]
  find-insert p r [] = ground arith
  find-insert p r (x ∷ rows) = ground (arith, find-insert p r rows)

  pub count_if-insert :
      (p : Row → Bool) (r : Row) (rows : List Row)
      → count_if p (insert r rows) ≡ (if p r then suc (count_if p rows) else count_if p rows)
  count_if-insert p r [] = ground arith
  count_if-insert p r (x ∷ rows) = ground (arith, count_if-insert p r rows)

  pub find-delete_where_self :
      (p : Row → Bool) (rows : List Row) → find p (delete_where p rows) ≡ none
  find-delete_where_self p [] = refl
  find-delete_where_self p (r ∷ rows) = ground (arith, find-delete_where_self p rows)

  -- Deleting rows that `p` never finds leaves what `p` finds.
  pub find-delete_where_ne :
      (p q : Row → Bool) (rows : List Row)
      → ((r : Row) → q r ≡ true → p r ≡ false)
      → find p (delete_where q rows) ≡ find p rows
  find-delete_where_ne p q [] h = refl
  find-delete_where_ne p q (r ∷ rows) h = ground (arith, find-delete_where_ne p q rows h, h r)

  pub count_if-delete_where_self :
      (p : Row → Bool) (rows : List Row) → count_if p (delete_where p rows) ≡ 0
  count_if-delete_where_self p [] = refl
  count_if-delete_where_self p (r ∷ rows) = ground (arith, count_if-delete_where_self p rows)

  pub count_if-delete_where_ne :
      (p q : Row → Bool) (rows : List Row)
      → ((r : Row) → q r ≡ true → p r ≡ false)
      → count_if p (delete_where q rows) ≡ count_if p rows
  count_if-delete_where_ne p q [] h = refl
  count_if-delete_where_ne p q (r ∷ rows) h =
      ground (arith, count_if-delete_where_ne p q rows h, h r)

  pub count_if-eq-zero_of_find :
      (p : Row → Bool) (rows : List Row) → find p rows ≡ none → count_if p rows ≡ 0
  count_if-eq-zero_of_find p [] h = refl
  count_if-eq-zero_of_find p (r ∷ rows) h = ground (arith, count_if-eq-zero_of_find p rows)

  pub find-none_of_count :
      (p : Row → Bool) (rows : List Row) → count_if p rows ≡ 0 → find p rows ≡ none
  find-none_of_count p [] h = refl
  find-none_of_count p (r ∷ rows) h = ground (arith, find-none_of_count p rows)

  pub is_some-find : (p : Row → Bool) (rows : List Row) → is_some (find p rows) ≡ any p rows
  is_some-find p [] = refl
  is_some-find p (r ∷ rows) = ground (arith, is_some-find p rows)

  pub count_if-delete_where_le :
      (p q : Row → Bool) (rows : List Row) → count_if p (delete_where q rows) ≤ count_if p rows
  count_if-delete_where_le p q [] = omega arith
  count_if-delete_where_le p q (r ∷ rows) = ground (arith, count_if-delete_where_le p q rows)

  pub count_if-select_le :
      (p q : Row → Bool) (rows : List Row) → count_if p (select q rows) ≤ count_if p rows
  count_if-select_le p q [] = omega arith
  count_if-select_le p q (r ∷ rows) = ground (arith, count_if-select_le p q rows)

-- Rows with a primary key.
module _ {Row : Type 0} (id : Row → ℕ) where
  -- `session.get`
  abbrev pub get : ℕ → List Row → Option Row
  get k rows = find (λ r. id r == k) rows

  -- `session.get`, then `session.delete`
  abbrev pub delete : ℕ → List Row → List Row
  delete k rows = delete_where (λ r. id r == k) rows

  -- Insert the entity, or assign its columns to the row that has its key.
  abbrev pub save : (Row → Row → Row) → Row → List Row → List Row
  save assign new [] = new ∷ []
  save assign new (r ∷ rows) =
      if id r == id new then assign r new ∷ rows else r ∷ save assign new rows

  pub get-save :
      (assign : Row → Row → Row) (new : Row) (rows : List Row) (k : ℕ)
      → ((old : Row) → id (assign old new) ≡ id new)
      → get k (save assign new rows) ≡ (
          if id new == k
          then elim (get k rows) [ none ↦ some new | some old ↦ some (assign old new) ]
          else get k rows)
  get-save assign new [] k h = ground arith
  get-save assign new (r ∷ rows) k h = ground (arith, get-save assign new rows k h, h r)

  pub get-id : (k : ℕ) (rows : List Row) {r : Row} → get k rows ≡ some r → id r ≡ k
  get-id k [] {r} f = absurd (ground arith)
  get-id k (x ∷ rows) {r} f = elim (Bool-cases (id x == k)) [
    | inl hit ↦ let same : x ≡ r = ground arith in rw (← same) (ground arith)
    | inr miss ↦ get-id k rows (ground arith)
  ]

  -- A row of a new key goes to the end.
  pub save-absent :
      (assign : Row → Row → Row) (new : Row) (rows : List Row)
      → get (id new) rows ≡ none
      → save assign new rows ≡ insert new rows
  save-absent assign new [] f = refl
  save-absent assign new (r ∷ rows) f = ground (arith, save-absent assign new rows)

  -- A row of the table after a save is the saved one, or a row of before with another key.
  pub get-save-cases :
      (assign : Row → Row → Row) (new : Row) (rows : List Row) (k : ℕ) {y : Row}
      → ((old : Row) → id (assign old new) ≡ id new)
      → get k (save assign new rows) ≡ some y
      → ((id new ≡ k)
          × ((y ≡ new) ⊎ ((old : Row) × (get k rows ≡ some old) × (y ≡ assign old new))))
        ⊎ (((id new == k) ≡ false) × (get k rows ≡ some y))
  get-save-cases assign new rows k keyed f =
      let saved = get-save assign new rows k keyed in
      elim (Bool-cases (id new == k)) [
        | inr miss ↦ inr (miss, ground (arith, saved, f))
        | inl hit ↦ elim (Option-cases (get k rows)) [
          | inl absent ↦ inl (ground arith, inl (ground (arith, saved, f)))
          | inr (old, there) ↦ inl (ground arith, inr (old, there, ground (arith, saved, f)))
        ]
      ]

  -- A row that is there stays, up to the columns that the save assigns.
  pub get-save-stays :
      (assign : Row → Row → Row) (new : Row) (rows : List Row) (k : ℕ) {old : Row}
      → ((o : Row) → id (assign o new) ≡ id new)
      → get k rows ≡ some old
      → (y : Row) × (get k (save assign new rows) ≡ some y)
  get-save-stays assign new rows k {old} keyed f =
      let saved = get-save assign new rows k keyed in
      elim (Bool-cases (id new == k)) [
        | inr miss ↦ (old, ground (arith, saved, f))
        | inl hit ↦ (assign old new, ground (arith, saved, f))
      ]

  -- No two rows have one key.
  abbrev pub IsKeyed : List Row → Type 0
  IsKeyed [] = Unit
  IsKeyed (r ∷ rows) = (count_if (λ x. id x == id r) rows ≡ 0) × IsKeyed rows

  delete-absent :
      (k : ℕ) (rows : List Row) → count_if (λ r. id r == k) rows ≡ 0 → delete k rows ≡ rows
  delete-absent k [] h = refl
  delete-absent k (r ∷ rows) h = ground (arith, delete-absent k rows)

  find-ne_of_absent :
      (p : Row → Bool) (k : ℕ) (rows : List Row) (x : Row)
      → find p rows ≡ some x
      → count_if (λ r. id r == k) rows ≡ 0
      → (id x == k) ≡ false
  find-ne_of_absent p k [] x f h = cc
  find-ne_of_absent p k (r ∷ rows) x f h = ground (arith, find-ne_of_absent p k rows x)

  -- Deleting a row that was found, by its key, takes that row and no other.
  pub count_if-delete_found :
      (p q : Row → Bool) (rows : List Row) (x : Row)
      → IsKeyed rows
      → find p rows ≡ some x
      → count_if q rows
        ≡ (if q x then suc (count_if q (delete (id x) rows)) else count_if q (delete (id x) rows))
  count_if-delete_found p q [] x keyed f = cc
  count_if-delete_found p q (r ∷ rows) x keyed f = elim (Bool-cases (p r)) [
    | inl hit ↦
        let same : r ≡ x = ground arith in
        ground (
          arith,
          delete-absent (id r) rows keyed.0,
          delete-absent (id x) rows,
          ap id same,
          ap q same,
        )
    | inr miss ↦
        let later : find p rows ≡ some x = ground arith in
        ground (
          arith,
          count_if-delete_found p q rows x keyed.1 later,
          find-ne_of_absent p (id r) rows x later keyed.0,
        )
  ]

  -- The row of a key among the rows of some ids.
  pub get-select_ids :
      (k : ℕ) (ids : List ℕ) (rows : List Row)
      → get k (select (λ r. contains (id r) ids) rows)
        ≡ (if contains k ids then get k rows else none)
  get-select_ids k ids [] = ground arith
  get-select_ids k ids (r ∷ rows) = elim (Bool-cases (id r == k)) [
    | inl e ↦
        let same : id r ≡ k = ground arith in
        ground (arith, get-select_ids k ids rows, ap (λ (i : ℕ). contains i ids) same)
    | inr e ↦ ground (arith, get-select_ids k ids rows)
  ]

  pub select-IsKeyed : (p : Row → Bool) (rows : List Row) → IsKeyed rows → IsKeyed (select p rows)
  select-IsKeyed p [] h = tt
  select-IsKeyed p (r ∷ rows) h =
      ground (arith, select-IsKeyed p rows h.1, count_if-select_le (λ x. id x == id r) p rows)

-- ===== src/Services/Pagination.antt =====
-- app/application/services/pagination.py. `fetch_page` is the query of a repository, a parameter;
-- the loop takes fuel, one unit for a page.
use jinbocho_catalog_v.Base.{
  ℕ, zero, suc, ◌≡◌, refl, ◌≤◌, ◌<◌, ◌+◌, ◌∙◌, ap, sym, inl, inr, Option, none, some, List, [], ◌∷◌,
  ◌++◌, arith, length, take, drop, ltb, if◌then◌else◌, Bool-cases,
}
use Prim.Native.Nat.add

module _ {A : Type 0} (fetch_page : ℕ → ℕ → List A) (page_size : ℕ) where
  pub fetch_from : (fuel : ℕ) → List A → (offset : ℕ) → Option (List A)
  fetch_from zero results offset = none
  fetch_from (suc fuel) results offset =
      let page = fetch_page page_size offset in
      let rest = fetch_from fuel (results ++ page) (offset + page_size) in
      if ltb (length page) page_size then some (results ++ page) else rest

  unfoldable pub fetch_all_pages : ℕ → Option (List A)
  unfolding fetch_from
  fetch_all_pages fuel = fetch_from fuel [] 0

module _ {A : Type 0} where
  -- What the queries with a limit and an offset give, of the rows in their order.
  abbrev pub page_of : List A → ℕ → ℕ → List A
  page_of rows limit offset = take limit (drop offset rows)

  take_nil : (n : ℕ) → take {A = A} n [] ≡ []
  take_nil zero = refl
  take_nil (suc n) = refl

  take_more :
      (rows : List A) (offset p : ℕ)
      → take offset rows ++ page_of rows p offset ≡ take (offset + p) rows
  take_more rows zero p = rw add.zero refl
  take_more [] (suc n) p = take_nil p ∙ sym (take_nil (suc n + p))
  take_more (x ∷ rows) (suc n) p = rw add.suc (ap (λ l. x ∷ l) (take_more rows n p))

  take_all : (n : ℕ) (rows : List A) → length rows ≤ n → take n rows ≡ rows
  take_all zero [] h = refl
  take_all zero (x ∷ rows) h = absurd (omega arith)
  take_all (suc n) [] h = refl
  take_all (suc n) (x ∷ rows) h = ap (λ l. x ∷ l) (take_all n rows (omega arith))

  -- A page that is short is the last: the rows end within it.
  short_page :
      (rows : List A) (offset p : ℕ) → length (page_of rows p offset) < p → length rows ≤ offset + p
  short_page rows offset zero h = absurd (omega arith)
  short_page [] offset (suc p) h = omega arith
  short_page (x ∷ rows) zero (suc p) h = omega (arith, short_page rows 0 p (omega arith))
  short_page (x ∷ rows) (suc n) (suc p) h = omega (arith, short_page rows n (suc p) h)

  -- A page that is full leaves the next offset within the rows.
  full_page :
      (rows : List A) (offset p : ℕ)
      → offset ≤ length rows
      → p ≤ length (page_of rows p offset)
      → offset + p ≤ length rows
  full_page rows offset zero le h = omega arith
  full_page [] zero (suc p) le h = absurd (omega arith)
  full_page [] (suc n) (suc p) le h = absurd (omega arith)
  full_page (x ∷ rows) zero (suc p) le h =
      omega (arith, full_page rows 0 p (omega arith) (omega arith))
  full_page (x ∷ rows) (suc n) (suc p) le h =
      omega (arith, full_page rows n (suc p) (omega arith) h)

  module _ (rows : List A) (fetch : ℕ → ℕ → List A) (p : ℕ) where
    fetch_from_lem :
        (fuel offset : ℕ)
        → ((o : ℕ) → fetch p o ≡ page_of rows p o)
        → 0 < p
        → offset ≤ length rows
        → length rows < offset + fuel
        → fetch_from fetch p fuel (take offset rows) offset ≡ some rows
    unfolding fetch_from
    fetch_from_lem zero offset q pos le fits = absurd (omega arith)
    fetch_from_lem (suc fuel) offset q pos le fits =
        rw (q offset, take_more)
          (elim (Bool-cases (ltb (length (page_of rows p offset)) p)) [
            | inl short ↦ rw short (
                ap some
                  (take_all (offset + p) rows (short_page rows offset p (ground (arith, short)))))
            | inr full ↦ rw full (
                fetch_from_lem fuel (offset + p) q pos
                  (full_page rows offset p le (ground (arith, full))) (omega arith))
          ])

    -- With pages of one row or more, of a query that returns the page of its rows, and more fuel
    -- than rows, the loop ends and returns every row, in order, however long the list is.
    pub fetch_all_pages-rows :
        (fuel : ℕ)
        → ((o : ℕ) → fetch p o ≡ page_of rows p o)
        → 0 < p
        → length rows < fuel
        → fetch_all_pages fetch p fuel ≡ some rows
    unfolding fetch_all_pages
    fetch_all_pages-rows fuel q pos fits = fetch_from_lem fuel 0 q pos (omega arith) (omega arith)

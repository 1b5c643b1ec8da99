-- ===== src/Examples/Ratings.antt =====
-- Ratings, on the sample rows.
use jinbocho_catalog_v.Base.{
  ℕ, ◌≡◌, ◌⊎◌, ◌==◌, if◌then◌else◌, refl, arith, none, some, List, [], ◌∷◌,
}
use jinbocho_catalog_v.Domain.Activity.{BookRating}
use jinbocho_catalog_v.Domain.Errors.{Error}
use jinbocho_catalog_v.Exec.{Result, ok, err}
use jinbocho_catalog_v.Catalog.State.{Catalog}
use jinbocho_catalog_v.Catalog.Ratings.{
  rating_by_id, create_book_rating, update_book_rating, delete_book_rating,
}
use jinbocho_catalog_v.Catalog.Ratings.Keeps.{IsRated, Writes, Writes-IsRated}
use jinbocho_catalog_v.Catalog.Ratings.Changes.{IsAllowed, changed, update_book_rating-any_copy}
use jinbocho_catalog_v.Catalog.Ratings.Keeps
use jinbocho_catalog_v.Examples.{catalog, rating}

abbrev three : List BookRating
three = rating 1 10 6 4 ∷ rating 3 10 7 5 ∷ rating 4 10 8 4 ∷ []

catalog-IsRated : IsRated catalog.ratings
catalog-IsRated = (λ book user. ground arith, (refl, (refl, tt)))

Writes-IsRated_example :
    IsRated (delete_book_rating 1 1 6 (create_book_rating 11 1 6 5 none 3 99 catalog).1).1.ratings
Writes-IsRated_example = Writes-IsRated catalog-IsRated (
    Keeps.next (Keeps.next Keeps.start (Keeps.create 11 1 6 5 none 3 99 catalog))
      (Keeps.delete 1 1 6 (create_book_rating 11 1 6 5 none 3 99 catalog).1))

-- User 6 changes the rating of the other library's copy 20 by naming copy 10.
abbrev call : Result BookRating × Catalog
call = update_book_rating 2 10 1 6 (some 5) none 99 catalog

update_book_rating-any_copy_example :
    ((old : BookRating) × IsAllowed 2 10 1 6 (some 5) none 99 catalog old
      × (call.0 ≡ ok (changed 2 10 1 6 (some 5) none 99 catalog old))
      × (call.1 ≡ record catalog { ratings = call.1.ratings })
      × ((k : ℕ)
          → rating_by_id k call.1.ratings ≡ (
              if k == 2
              then some (changed 2 10 1 6 (some 5) none 99 catalog old)
              else rating_by_id k catalog.ratings)))
    ⊎ ((e : Error) × (call.0 ≡ err e)
        × (call.1 ≡ catalog)
        × ((old : BookRating) → IsAllowed 2 10 1 6 (some 5) none 99 catalog old → ⊥))
update_book_rating-any_copy_example = update_book_rating-any_copy 2 10 1 6 (some 5) none 99 catalog

rating_of_copy_20 : call.0 ≡ ok (record (rating 2 20 6 2) { rating = 5; updated_at = 99 })
unfolding update_book_rating
rating_of_copy_20 = refl

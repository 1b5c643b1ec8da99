-- ===== src/Catalog/Ratings.antt =====
-- app/application/use_cases/catalog/book_ratings.py and library_rating_stats.py, with
-- book_rating_repository.py. The average is its sum and its count: the rounded quotient is left out.
pub mod Stats
pub mod Keeps
pub mod Changes
use jinbocho_catalog_v.Base.{
  ℕ, String, Bool, Option, none, some, List, [], ◌∷◌, ◌+◌, not, ◌==◌, ◌&&◌, leb, is_some, or_keep,
  length, if◌then◌else◌,
}
use jinbocho_catalog_v.Base.Table
use jinbocho_catalog_v.Base.Member
use jinbocho_catalog_v.Domain.Book.{OwnedBook}
use jinbocho_catalog_v.Domain.Activity.{BookRating}
use jinbocho_catalog_v.Domain.Errors.{lookup_error, permission_error, value_error}
use jinbocho_catalog_v.Exec.{Exec, pure, gets, modify, or_raise, raise_if, ◌>>=◌, ◌>>◌}
use jinbocho_catalog_v.Catalog.State.{Catalog}
use jinbocho_catalog_v.Catalog.BookRepo

-- `1 <= rating <= 5`
abbrev pub in_stars : ℕ → Bool
in_stars rating = leb 1 rating && leb rating 5

abbrev pub rating_by_id : ℕ → List BookRating → Option BookRating
rating_by_id k rows = Table.get (λ (r : BookRating). r.id) k rows

abbrev pub is_rating_of : ℕ → ℕ → BookRating → Bool
is_rating_of book user r = Member.same_pair r.owned_book_id r.user_id book user

-- What `save` makes of the row with the entity's key.
abbrev pub assign_rating : ℕ → BookRating → BookRating → BookRating
assign_rating now old new = record old {
  id = new.id;
  rating = new.rating;
  review = new.review;
  updated_at = now;
}

abbrev pub save_rating : ℕ → BookRating → List BookRating → List BookRating
save_rating now new rows =
    Table.update_where (λ (r : BookRating). r.id == new.id) (λ r. assign_rating now r new) rows

abbrev pub delete_rating : ℕ → List BookRating → List BookRating
delete_rating k rows = Table.delete (λ (r : BookRating). r.id) k rows

-- The copy, if the library has it: the first lines of the use cases on a copy.
unfoldable pub rated_book : (book_id library_id : ℕ) → Exec Catalog OwnedBook
unfolding BookRepo.find_by_id
rated_book book_id library_id = do
  found ← BookRepo.find_by_id book_id
  book ← or_raise found lookup_error
  raise_if (not (book.library_id == library_id)) permission_error
  pure book

unfoldable pub create_book_rating :
    (book_id library_id user_id rating : ℕ)
    → Option String
    → (new_id now : ℕ) → Exec Catalog BookRating
unfolding rated_book
create_book_rating book_id library_id user_id rating review new_id now = do
  rated_book book_id library_id
  existing ← gets (λ s. Table.find (is_rating_of book_id user_id) s.ratings)
  raise_if (is_some existing) value_error
  raise_if (not (in_stars rating)) value_error
  let row : BookRating = record {
    id = new_id;
    owned_book_id = book_id;
    user_id = user_id;
    rating = rating;
    review = review;
    created_at = now;
    updated_at = now;
  }
  modify (λ s. record s { ratings = Table.insert row s.ratings })
  pure row

-- `if inp.rating is not None`: the new value, and whether it may be stored
abbrev pub new_rating : Option ℕ → ℕ → ℕ
new_rating none old = old
new_rating (some r) old = r

abbrev pub is_refused : Option ℕ → Bool
is_refused none = Bool.false
is_refused (some r) = not (in_stars r)

unfoldable pub update_book_rating :
    (rating_id book_id library_id user_id : ℕ)
    → Option ℕ
    → Option String
    → (now : ℕ) → Exec Catalog BookRating
unfolding rated_book
update_book_rating rating_id book_id library_id user_id value review now = do
  found ← gets (λ s. rating_by_id rating_id s.ratings)
  rating ← or_raise found lookup_error
  rated_book book_id library_id
  raise_if (not (rating.user_id == user_id)) permission_error
  raise_if (is_refused value) value_error
  let saved : BookRating = record rating {
    rating = new_rating value rating.rating;
    review = or_keep review rating.review;
    updated_at = now;
  }
  modify (λ s. record s { ratings = save_rating now saved s.ratings })
  pure saved

unfoldable pub delete_book_rating : (rating_id library_id user_id : ℕ) → Exec Catalog (Unit {0})
unfolding rated_book
delete_book_rating rating_id library_id user_id = do
  found ← gets (λ s. rating_by_id rating_id s.ratings)
  rating ← or_raise found lookup_error
  rated_book rating.owned_book_id library_id
  raise_if (not (rating.user_id == user_id)) permission_error
  modify (λ s. record s { ratings = delete_rating rating.id s.ratings })

-- A dictionary from stars to counts; adding to a missing key raises.
unfoldable pub bump : ℕ → List (ℕ × ℕ) → Option (List (ℕ × ℕ))
bump star [] = none
bump star ((k, n) ∷ counts) =
    if k == star
    then some ((k, n + 1) ∷ counts)
    else elim (bump star counts) [ none ↦ none | some more ↦ some ((k, n) ∷ more) ]

unfoldable pub tally : List BookRating → List (ℕ × ℕ) → Option (List (ℕ × ℕ))
tally [] counts = some counts
tally (r ∷ ratings) counts = elim (bump r.rating counts) [
  | none ↦ none
  | some more ↦ tally ratings more
]

abbrev pub sum_ratings : List BookRating → ℕ
sum_ratings [] = 0
sum_ratings (r ∷ ratings) = r.rating + sum_ratings ratings

pub record LibraryRatingStats : Type 0 where
  pub owned_book_id : ℕ
  pub total : ℕ
  pub average : Option (ℕ × ℕ)
  pub distribution : List (ℕ × ℕ)

abbrev pub five_stars : List (ℕ × ℕ)
five_stars = (1, 0) ∷ ((2, 0) ∷ ((3, 0) ∷ ((4, 0) ∷ ((5, 0) ∷ []))))

unfoldable pub from_ratings : ℕ → List BookRating → Option LibraryRatingStats
from_ratings book ratings = elim (tally ratings five_stars) [
  | none ↦ none
  | some counts ↦ some (record {
    owned_book_id = book;
    total = length ratings;
    average = if length ratings == 0 then none else some (sum_ratings ratings, length ratings);
    distribution = counts;
  })
]

unfoldable pub list_book_ratings : (book_id library_id : ℕ) → Exec Catalog (List BookRating)
unfolding rated_book
list_book_ratings book_id library_id = do
  rated_book book_id library_id
  gets (λ s. Table.select (λ (r : BookRating). r.owned_book_id == book_id) s.ratings)

unfoldable pub get_book_rating_stats : (book_id library_id : ℕ) → Exec Catalog LibraryRatingStats
unfolding rated_book
get_book_rating_stats book_id library_id = do
  rated_book book_id library_id
  ratings ← gets (λ s. Table.select (λ (r : BookRating). r.owned_book_id == book_id) s.ratings)
  or_raise (from_ratings book_id ratings) lookup_error

-- ===== src/Catalog/Ratings/Stats.antt =====
-- The statistics of a copy's ratings.
use jinbocho_catalog_v.Base.{
  ℕ, suc, ◌≡◌, refl, inl, inr, ◌+◌, Bool, true, false, none, some, List, [], ◌∷◌, arith, ◌==◌,
  length, count_if, All, if◌then◌else◌, Bool-cases,
}
use jinbocho_catalog_v.Domain.Activity.{BookRating}
use jinbocho_catalog_v.Catalog.Ratings.{
  in_stars, bump, tally, sum_ratings, LibraryRatingStats, five_stars, from_ratings,
}

-- The count of a star, the sum of the counts, and the stars that they stand for.
abbrev pub count_of : ℕ → List (ℕ × ℕ) → ℕ
count_of star [] = 0
count_of star ((k, n) ∷ counts) = if k == star then n else count_of star counts

abbrev pub sum_counts : List (ℕ × ℕ) → ℕ
sum_counts [] = 0
sum_counts ((k, n) ∷ counts) = n + sum_counts counts

has_star : ℕ → List (ℕ × ℕ) → Bool
has_star star [] = false
has_star star ((k, n) ∷ counts) = if k == star then true else has_star star counts

-- What one rating adds.
bump_lem :
    (star : ℕ) (counts : List (ℕ × ℕ))
    → has_star star counts ≡ true
    → (more : List (ℕ × ℕ)) × (bump star counts ≡ some more)
      × (sum_counts more ≡ suc (sum_counts counts))
      × ((j : ℕ)
          → (has_star j more ≡ has_star j counts)
            × (count_of j more
                ≡ (if star == j then suc (count_of j counts) else count_of j counts)))
unfolding bump has_star
bump_lem star [] h = cc
bump_lem star ((k, n) ∷ counts) h = elim (Bool-cases (k == star)) [
  | inl e ↦ ((k, n + 1) ∷ counts, ground arith, ground arith, λ j. (ground arith, ground arith))
  | inr e ↦
      let (more, out, total, each) = bump_lem star counts (ground arith) in
      (
        (k, n) ∷ more,
        ground arith,
        ground arith,
        λ j. let here = each j in (ground arith, ground arith),
      )
]

is_star : (star : ℕ) → in_stars star ≡ true → has_star star five_stars ≡ true
unfolding has_star
is_star star h = ground arith

tally_lem :
    (ratings : List BookRating) (counts : List (ℕ × ℕ))
    → All (λ (r : BookRating). has_star r.rating counts ≡ true) ratings
    → (more : List (ℕ × ℕ)) × (tally ratings counts ≡ some more)
      × (sum_counts more ≡ length ratings + sum_counts counts)
      × ((j : ℕ)
          → count_of j more
            ≡ count_if (λ (r : BookRating). r.rating == j) ratings + count_of j counts)
unfolding tally
tally_lem [] counts h = (counts, refl, omega arith, λ j. omega arith)
tally_lem (r ∷ ratings) counts h =
    let (more, out, total, each) = bump_lem r.rating counts h.0 in
    let (final, out', total', each') = tally_lem ratings more (still more ratings each h.1) in
    (
      final,
      ground arith,
      omega (arith, total, total'),
      λ j. let here = each j in let there = each' j in ground arith,
    )
  where
    still :
        (more : List (ℕ × ℕ)) {P : ℕ → Type 0} (rows : List BookRating)
        → ((j : ℕ) → (has_star j more ≡ has_star j counts) × P j)
        → All (λ (r : BookRating). has_star r.rating counts ≡ true) rows
        → All (λ (r : BookRating). has_star r.rating more ≡ true) rows
    still more [] each h = tt
    still more (x ∷ rows) each h = (rw ((each x.rating).0) h.0, still more rows each h.1)

-- Ratings between one and five stars have statistics; the distribution holds, for each star, the
-- number of the ratings with that star, and its counts sum up to the total, the number of ratings.
pub from_ratings_lem :
    (book : ℕ) (ratings : List BookRating)
    → All (λ (r : BookRating). in_stars r.rating ≡ true) ratings
    → (stats : LibraryRatingStats) × (from_ratings book ratings ≡ some stats)
      × (stats.total ≡ length ratings)
      × (sum_counts stats.distribution ≡ stats.total)
      × ((star : ℕ)
          → count_of star stats.distribution
            ≡ count_if (λ (r : BookRating). r.rating == star) ratings)
unfolding from_ratings
from_ratings_lem book ratings h =
    let (counts, out, total, each) = tally_lem ratings five_stars (starred ratings h) in
    let stats : LibraryRatingStats = record {
      owned_book_id = book;
      total = length ratings;
      average = if length ratings == 0 then none else some (sum_ratings ratings, length ratings);
      distribution = counts;
    } in
    (stats, ground arith, refl, ground (arith, total), λ star. let here = each star in ground arith)
  where
    starred :
        (rows : List BookRating)
        → All (λ (r : BookRating). in_stars r.rating ≡ true) rows
        → All (λ (r : BookRating). has_star r.rating five_stars ≡ true) rows
    starred [] h = tt
    starred (r ∷ rows) h = (is_star r.rating h.0, starred rows h.1)

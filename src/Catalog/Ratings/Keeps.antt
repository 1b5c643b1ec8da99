-- ===== src/Catalog/Ratings/Keeps.antt =====
-- What the writes of ratings keep.
use jinbocho_catalog_v.Base.{
  ℕ, String, ◌≡◌, refl, inl, inr, ◌≤◌, true, false, Option, none, some, List, [], ◌∷◌, arith, ◌==◌,
  count_if, All, Option-cases, or_keep,
}
use jinbocho_catalog_v.Base.Table.{
  find, count_if-insert, count_if-eq-zero_of_find, insert, count_if-delete_where_le,
}
use jinbocho_catalog_v.Base.Member.{same_pair}
use jinbocho_catalog_v.Domain.Activity.{BookRating}
use jinbocho_catalog_v.Exec.{Result-cases}
use jinbocho_catalog_v.Catalog.State.{Catalog}
use jinbocho_catalog_v.Catalog.Ratings.{
  in_stars, rating_by_id, is_rating_of, save_rating, delete_rating, create_book_rating,
  update_book_rating, delete_book_rating, new_rating, is_refused,
}

-- No user has two ratings of a copy, and every rating has one to five stars.
abbrev pub IsRated : List BookRating → Type 0
IsRated rows =
    ((book user : ℕ) → count_if (is_rating_of book user) rows ≤ 1)
    × All (λ (r : BookRating). in_stars r.rating ≡ true) rows

count_if-same :
    (b u c v : ℕ) (rows : List BookRating)
    → same_pair b u c v ≡ true
    → count_if (is_rating_of c v) rows ≡ count_if (is_rating_of b u) rows
count_if-same b u c v [] e = refl
count_if-same b u c v (r ∷ rows) e = ground (arith, count_if-same b u c v rows)

All-insert :
    (r : BookRating) (rows : List BookRating)
    → in_stars r.rating ≡ true
    → All (λ (x : BookRating). in_stars x.rating ≡ true) rows
    → All (λ (x : BookRating). in_stars x.rating ≡ true) (insert r rows)
All-insert r [] e h = (e, tt)
All-insert r (x ∷ rows) e h = (h.0, All-insert r rows e h.1)

-- Creating a rating keeps one rating for a user and a copy, with one to five stars, on every branch.
pub create_book_rating-IsRated :
    (book_id library_id user_id rating : ℕ) (review : Option String) (new_id now : ℕ) (s : Catalog)
    → IsRated s.ratings
    → IsRated (create_book_rating book_id library_id user_id rating review new_id now s).1.ratings
unfolding create_book_rating
create_book_rating-IsRated book_id lib user rating review new_id now s (single, stars) =
    elim (Result-cases (create_book_rating book_id lib user rating review new_id now s).0) [
      | inr (e, out) ↦
          let same : (create_book_rating book_id lib user rating review new_id now s).1 ≡ s =
            ground arith in
          rw same (single, stars)
      | inl (r, out) ↦
          let row : BookRating = record {
            id = new_id;
            owned_book_id = book_id;
            user_id = user;
            rating = rating;
            review = review;
            created_at = now;
            updated_at = now;
          } in
          let added : (create_book_rating book_id lib user rating review new_id now s).1.ratings
              ≡ insert row s.ratings =
            ground arith in
          let fresh : find (is_rating_of book_id user) s.ratings ≡ none = ground arith in
          let none_there = count_if-eq-zero_of_find (is_rating_of book_id user) s.ratings fresh in
          rw added (
            λ b u.
                let before = single b u in
                ground (
                  arith,
                  count_if-insert (is_rating_of b u) row s.ratings,
                  count_if-same book_id user b u s.ratings,
                ),
            All-insert row s.ratings (ground arith) stars,
          )
    ]

count_if-save :
    (now b u : ℕ) (new : BookRating) (rows : List BookRating)
    → count_if (is_rating_of b u) (save_rating now new rows) ≡ count_if (is_rating_of b u) rows
count_if-save now b u new [] = refl
count_if-save now b u new (r ∷ rows) = ground (arith, count_if-save now b u new rows)

All-save :
    (now : ℕ) (new : BookRating) (rows : List BookRating)
    → in_stars new.rating ≡ true
    → All (λ (x : BookRating). in_stars x.rating ≡ true) rows
    → All (λ (x : BookRating). in_stars x.rating ≡ true) (save_rating now new rows)
All-save now new [] e h = tt
All-save now new (x ∷ rows) e h = (ground (arith, h.0), All-save now new rows e h.1)

found-stars :
    (k : ℕ) (rows : List BookRating) (r : BookRating)
    → All (λ (x : BookRating). in_stars x.rating ≡ true) rows
    → rating_by_id k rows ≡ some r
    → in_stars r.rating ≡ true
found-stars k [] r h e = cc
found-stars k (x ∷ rows) r h e = ground (arith, found-stars k rows r)

All-delete :
    (k : ℕ) (rows : List BookRating)
    → All (λ (x : BookRating). in_stars x.rating ≡ true) rows
    → All (λ (x : BookRating). in_stars x.rating ≡ true) (delete_rating k rows)
All-delete k [] h = tt
All-delete k (x ∷ rows) h = ground (arith, All-delete k rows)

stars_of :
    (value : Option ℕ) (old : ℕ)
    → is_refused value ≡ false
    → in_stars old ≡ true
    → in_stars (new_rating value old) ≡ true
stars_of none old a b = ground arith
stars_of (some r) old a b = ground arith

-- Changing a rating keeps this too, on every branch.
pub update_book_rating-IsRated :
    (rating_id book_id library_id user_id : ℕ) (value : Option ℕ) (review : Option String) (now : ℕ)
    (s : Catalog)
    → IsRated s.ratings
    → IsRated (update_book_rating rating_id book_id library_id user_id value review now s).1.ratings
unfolding update_book_rating
update_book_rating-IsRated rating_id book_id lib user value review now s (single, stars) =
    elim (Result-cases (update_book_rating rating_id book_id lib user value review now s).0) [
      | inr (e, out) ↦
          let same : (update_book_rating rating_id book_id lib user value review now s).1 ≡ s =
            ground arith in
          rw same (single, stars)
      | inl (x, out) ↦ elim (Option-cases (rating_by_id rating_id s.ratings)) [
        | inl gone ↦ ground arith
        | inr (old, found) ↦
            let new : BookRating = record old {
              rating = new_rating value old.rating;
              review = or_keep review old.review;
              updated_at = now;
            } in
            let saved : (update_book_rating rating_id book_id lib user value review now s).1.ratings
                ≡ save_rating now new s.ratings =
              ground arith in
            let kept = found-stars rating_id s.ratings old stars found in
            let valid : is_refused value ≡ false = ground arith in
            rw saved (
              λ b u. rw (count_if-save now b u new s.ratings) (single b u),
              All-save now new s.ratings (stars_of value old.rating valid kept) stars,
            )
      ]
    ]

-- Deleting a rating keeps it too, on every branch.
pub delete_book_rating-IsRated :
    (rating_id library_id user_id : ℕ) (s : Catalog)
    → IsRated s.ratings
    → IsRated (delete_book_rating rating_id library_id user_id s).1.ratings
unfolding delete_book_rating
delete_book_rating-IsRated rating_id lib user s (single, stars) =
    elim (Result-cases (delete_book_rating rating_id lib user s).0) [
      | inr (e, out) ↦
          let same : (delete_book_rating rating_id lib user s).1 ≡ s = ground arith in
          rw same (single, stars)
      | inl (x, out) ↦ elim (Option-cases (rating_by_id rating_id s.ratings)) [
        | inl gone ↦ ground arith
        | inr (old, found) ↦
            let left : (delete_book_rating rating_id lib user s).1.ratings
                ≡ delete_rating old.id s.ratings =
              ground arith in
            rw left (
              λ b u.
                  let before = single b u in
                  ground (
                    arith,
                    count_if-delete_where_le (is_rating_of b u) (λ (r : BookRating). r.id == old.id)
                        s.ratings,
                  ),
              All-delete old.id s.ratings stars,
            )
      ]
    ]

-- A call of one of the use cases that write ratings, with any arguments; it may return or raise.
pub data Write : Catalog → Catalog → Type 0 where
  create :
      (book lib user rating : ℕ) (review : Option String) (new_id now : ℕ) (s : Catalog)
      → Write s (create_book_rating book lib user rating review new_id now s).1
  update :
      (k book lib user : ℕ) (value : Option ℕ) (review : Option String) (now : ℕ) (s : Catalog)
      → Write s (update_book_rating k book lib user value review now s).1
  delete : (k lib user : ℕ) (s : Catalog) → Write s (delete_book_rating k lib user s).1

pub data Writes (s : Catalog) : Catalog → Type 0 where
  start : Writes s s
  next : {t u : Catalog} → Writes s t → Write t u → Writes s u

Write-IsRated : {s t : Catalog} → Write s t → IsRated s.ratings → IsRated t.ratings
Write-IsRated (create book lib user rating review new_id now s) h =
    create_book_rating-IsRated book lib user rating review new_id now s h
Write-IsRated (update k book lib user value review now s) h =
    update_book_rating-IsRated k book lib user value review now s h
Write-IsRated (delete k lib user s) h = delete_book_rating-IsRated k lib user s h

-- Any calls that create, change or delete ratings, whether they return or raise, keep one rating for
-- a user and a copy at most, and every rating between one and five stars.
pub Writes-IsRated : {s t : Catalog} → IsRated s.ratings → Writes s t → IsRated t.ratings
Writes-IsRated h start = h
Writes-IsRated h (next calls call) = Write-IsRated call (Writes-IsRated h calls)

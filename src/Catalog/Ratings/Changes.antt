-- ===== src/Catalog/Ratings/Changes.antt =====
-- When a change of a rating returns, and what it writes.
use jinbocho_catalog_v.Base.{
  ℕ, String, ◌≡◌, refl, inl, inr, ◌⊎◌, ◌≤◌, false, Option, none, some, List, [], ◌∷◌, arith, ◌==◌,
  Option-cases, or_keep, if◌then◌else◌,
}
use jinbocho_catalog_v.Domain.Activity.{BookRating}
use jinbocho_catalog_v.Domain.Errors.{Error}
use jinbocho_catalog_v.Exec.{ok, err, Result-cases}
use jinbocho_catalog_v.Catalog.State.{Catalog}
use jinbocho_catalog_v.Catalog.Access.{library_in}
use jinbocho_catalog_v.Catalog.Ratings.{
  rating_by_id, save_rating, assign_rating, update_book_rating, new_rating, is_refused,
}

-- No new value, or one to five stars.
abbrev pub IsStars : Option ℕ → Type 0
IsStars none = Unit
IsStars (some stars) = (1 ≤ stars) × (stars ≤ 5)

IsStars-of : (value : Option ℕ) → is_refused value ≡ false → IsStars value
IsStars-of none h = tt
IsStars-of (some stars) h = ground arith

not_refused : (value : Option ℕ) → IsStars value → is_refused value ≡ false
not_refused none h = refl
not_refused (some stars) h = ground arith

rating_by_id-save :
    (now k : ℕ) (new : BookRating) (rows : List BookRating)
    → rating_by_id k (save_rating now new rows) ≡ elim (rating_by_id k rows) [
      | none ↦ none
      | some old ↦ if k == new.id then some (assign_rating now old new) else some old
    ]
rating_by_id-save now k new [] = refl
rating_by_id-save now k new (r ∷ rows) = ground (arith, rating_by_id-save now k new rows)

rating_by_id-id :
    (k : ℕ) (rows : List BookRating) (r : BookRating) → rating_by_id k rows ≡ some r → r.id ≡ k
rating_by_id-id k [] r h = cc
rating_by_id-id k (x ∷ rows) r h = ground (arith, rating_by_id-id k rows r)

module _ (rating_id book_id lib user : ℕ) (value : Option ℕ) (review : Option String) (now : ℕ)
    (s : Catalog) where
  -- The rating is the caller's, the copy that the call names is the library's, and the value is fine.
  pub record IsAllowed (old : BookRating) : Type 0 where
    pub found : rating_by_id rating_id s.ratings ≡ some old
    pub own_copy : library_in s book_id ≡ some lib
    pub own_rating : old.user_id ≡ user
    pub stars : IsStars value

  abbrev pub changed : BookRating → BookRating
  changed old = record old {
    rating = new_rating value old.rating;
    review = or_keep review old.review;
    updated_at = now;
  }

  allowed :
      (x : BookRating)
      → (update_book_rating rating_id book_id lib user value review now s).0 ≡ ok x
      → (old : BookRating) × IsAllowed old
        × (x ≡ changed old)
        × ((update_book_rating rating_id book_id lib user value review now s).1
            ≡ record s { ratings = save_rating now (changed old) s.ratings })
  unfolding update_book_rating
  allowed x out = elim (Option-cases (rating_by_id rating_id s.ratings)) [
    | inl gone ↦ absurd (ground arith)
    | inr (old, found) ↦ (
      old,
      record {
        found = found;
        own_copy = ground arith;
        own_rating = ground arith;
        stars = IsStars-of value (ground arith);
      },
      ground arith,
      ground arith,
    )
  ]

  refused :
      (e : Error) (old : BookRating)
      → (update_book_rating rating_id book_id lib user value review now s).0 ≡ err e
      → IsAllowed old
      → ⊥
  unfolding update_book_rating
  refused e old out h =
      let fine = not_refused value h.stars in ground (arith, h.found, h.own_copy, h.own_rating)

  unchanged :
      (e : Error)
      → (update_book_rating rating_id book_id lib user value review now s).0 ≡ err e
      → (update_book_rating rating_id book_id lib user value review now s).1 ≡ s
  unfolding update_book_rating
  unchanged e out = ground arith

  -- A change of a rating returns exactly if the rating is there and is the user's own, the copy that the
  -- call names is the library's, and the new value, if any, has one to five stars: the rating may stand
  -- on another copy. Its row then is what the call returns, the old row with the new stars and review where
  -- they are given, and each other rating and table is as before. Otherwise it raises, with nothing written.
  pub update_book_rating-any_copy :
      let (r, s') = update_book_rating rating_id book_id lib user value review now s in
      ((old : BookRating) × IsAllowed old
        × (r ≡ ok (changed old))
        × (s' ≡ record s { ratings = s'.ratings })
        × ((k : ℕ)
            → rating_by_id k s'.ratings
              ≡ (if k == rating_id then some (changed old) else rating_by_id k s.ratings)))
      ⊎ ((e : Error) × (r ≡ err e) × (s' ≡ s) × ((old : BookRating) → IsAllowed old → ⊥))
  update_book_rating-any_copy =
      elim (Result-cases (update_book_rating rating_id book_id lib user value review now s).0) [
        | inr (e, out) ↦ inr (e, out, unchanged e out, λ old h. refused e old out h)
        | inl (x, out) ↦
            let (old, h, same, wrote) = allowed x out in
            let key = rating_by_id-id rating_id s.ratings old h.found in
            inl (
              old,
              h,
              ground (arith, out, same),
              rw wrote refl,
              λ k.
                  rw wrote
                    (ground (arith, h.found, key, rating_by_id-save now k (changed old) s.ratings)),
            )
      ]

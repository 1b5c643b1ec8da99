-- ===== src/Services/AgeBand.antt =====
-- app/application/services/age_band.py. Years are natural numbers; a birth year after the current
-- year, where Python's age is negative, gives the age 0, which is in the same band.
use jinbocho_catalog_v.Base.{
  ℕ, ◌≡◌, ◌≤◌, ◌-◌, Option, none, some, List, [], ◌∷◌, leb, if◌then◌else◌, arith, refl,
}

pub data Band : Type 0 where
  shared emerging fluent teen : Band

abbrev pub band_max_age : List (Band × ℕ)
band_max_age = (shared, 5) ∷ (emerging, 8) ∷ (fluent, 12) ∷ []

abbrev pub oldest_band : Band
oldest_band = teen

-- The loop over the bands.
pub band_of_age : ℕ → List (Band × ℕ) → Band
band_of_age age [] = oldest_band
band_of_age age ((band, max_age) ∷ bands) = if leb age max_age then band else band_of_age age bands

pub age_band_for_birth_year : Option ℕ → ℕ → Option Band
unfolding band_of_age
age_band_for_birth_year none current_year = none
age_band_for_birth_year (some birth_year) current_year =
    some (band_of_age (current_year - birth_year) band_max_age)

-- The ages that a band is for.
abbrev pub min_age : Band → ℕ
min_age shared = 0
min_age emerging = 6
min_age fluent = 9
min_age teen = 13

abbrev pub InBand : ℕ → Band → Type 0
InBand age shared = age ≤ 5
InBand age emerging = (6 ≤ age) × (age ≤ 8)
InBand age fluent = (9 ≤ age) × (age ≤ 12)
InBand age teen = 13 ≤ age

abbrev InBand? : ℕ → Option Band → Type 0
InBand? age none = ⊥
InBand? age (some band) = InBand age band

-- With a birth year there is always a band, and it is the one whose ages hold the reader's age.
pub age_band_for_birth_year-InBand :
    (birth_year current_year : ℕ)
    → (band : Band) × (age_band_for_birth_year (some birth_year) current_year ≡ some band)
      × InBand (current_year - birth_year) band
unfolding age_band_for_birth_year
age_band_for_birth_year-InBand b y =
    let age = y - b in (band_of_age age band_max_age, refl, by_age age)
  where
    by_age : (age : ℕ) → InBand age (band_of_age age band_max_age)
    by_age age = ground arith

-- No reader falls back to a younger band as the years go by.
pub age_band_for_birth_year_mono :
    (birth_year y z : ℕ) {a b : Band}
    → y ≤ z
    → age_band_for_birth_year (some birth_year) y ≡ some a
    → age_band_for_birth_year (some birth_year) z ≡ some b
    → min_age a ≤ min_age b
unfolding age_band_for_birth_year
age_band_for_birth_year_mono birth y z le h k = ground arith

-- ===== src/Catalog/Access.antt =====
-- Access to a copy: every use case on a copy first asks whether it exists and whether it belongs to
-- the caller's library.
use jinbocho_catalog_v.Base.{ℕ, ◌≡◌, ◌≢◌, ◌⊎◌, Option, none, some}
use jinbocho_catalog_v.Domain.Errors.{lookup_error, permission_error}
use jinbocho_catalog_v.Domain.Book.{OwnedBook}
use jinbocho_catalog_v.Exec.{Result, ok, err}
use jinbocho_catalog_v.Catalog.State.{Catalog}
use jinbocho_catalog_v.Catalog.BookRepo.{book_by_id}

abbrev pub library_of : Option OwnedBook → Option ℕ
library_of none = none
library_of (some b) = some b.library_id

-- The library of a copy, if there is such a copy.
abbrev pub library_in : Catalog → ℕ → Option ℕ
library_in s book = library_of (book_by_id book s.books)

-- A call for the library `lib` on a thing of the library `owner`: it raises a lookup error if there
-- is no such thing and a permission error if it is another library's, with the state `s` unchanged
-- both times, and returns otherwise.
abbrev pub Guarded : {S A : Type 0} → Option ℕ → ℕ → S → Result A × S → Type 0
Guarded {A = A} owner lib s out =
    ((owner ≡ none) × (out ≡ (err lookup_error, s)))
    ⊎ (((l : ℕ) × (owner ≡ some l) × (l ≢ lib) × (out ≡ (err permission_error, s)))
        ⊎ ((owner ≡ some lib) × ((a : A) × (out.0 ≡ ok a))))

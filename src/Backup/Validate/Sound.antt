-- ===== src/Backup/Validate/Sound.antt =====
-- What the check of a backup accepts.
use jinbocho_catalog_v.Base.{
  ◌≡◌, ◌⊎◌, refl, Bool, true, inl, inr, List, [], ◌∷◌, arith, All, Bool-cases,
}
use jinbocho_catalog_v.Domain.Errors.{value_error}
use jinbocho_catalog_v.Exec.{Exec, ok, err, ◌>>◌}
use jinbocho_catalog_v.Backup.Input.{ImportFullLibraryInput}
use jinbocho_catalog_v.Backup.Validate.{
  check_each, validate_referential_integrity, is_sound_bookcase, is_sound_section, is_sound_shelf,
  is_sound_book, is_sound_read, is_sound_loan, is_sound_event,
}

-- Every reference inside the backup is to a row of the backup.
pub record IsSound (inp : ImportFullLibraryInput) : Type 0 where
  pub bookcases : All (λ x. is_sound_bookcase inp x ≡ true) inp.bookcases
  pub sections : All (λ x. is_sound_section inp x ≡ true) inp.sections
  pub shelves : All (λ x. is_sound_shelf inp x ≡ true) inp.shelves
  pub books : All (λ x. is_sound_book inp x ≡ true) inp.owned_books
  pub reads : All (λ x. is_sound_read inp x ≡ true) inp.book_reads
  pub loans : All (λ x. is_sound_loan inp x ≡ true) inp.book_loans
  pub history : All (λ x. is_sound_event inp x ≡ true) inp.book_history

module _ {S : Type 0} where
  -- A check that changes nothing, and returns only if `P` holds.
  abbrev Checks : Exec S (Unit {0}) → S → Type 0 → Type 0
  Checks m s P = (m s ≡ (err value_error, s)) ⊎ ((m s ≡ (ok tt, s)) × P)

  check_each-Checks :
      {Item : Type 0} (p : Item → Bool) (xs : List Item) (s : S)
      → Checks (check_each p xs) s (All (λ x. p x ≡ true) xs)
  check_each-Checks p [] s = inr (refl, tt)
  check_each-Checks p (x ∷ xs) s = elim (Bool-cases (p x)) [
    | inr bad ↦ inl (ground arith)
    | inl good ↦ elim (check_each-Checks p xs s) [
      | inl later ↦ inl (ground (arith, later))
      | inr (passed, all) ↦ inr (ground (arith, passed), (good, all))
    ]
  ]

  then-Checks :
      {P Q : Type 0} (m k : Exec S (Unit {0})) (s : S)
      → Checks m s P
      → Checks k s Q
      → Checks (m >> k) s (P × Q)
  then-Checks m k s (inl bad) c = inl (ground (arith, bad))
  then-Checks m k s (inr (good, p)) (inl bad) = inl (ground (arith, good, bad))
  then-Checks m k s (inr (good, p)) (inr (good', q)) = inr (ground (arith, good, good'), (p, q))

  -- The check of a backup changes nothing: it raises a value error, or returns for a backup in which every
  -- reference is to a row of it.
  pub validate_referential_integrity-IsSound :
      (inp : ImportFullLibraryInput) (s : S)
      → (validate_referential_integrity inp s ≡ (err value_error, s))
        ⊎ ((validate_referential_integrity inp s ≡ (ok tt, s)) × IsSound inp)
  unfolding validate_referential_integrity
  validate_referential_integrity-IsSound inp s =
      elim (then-Checks (check_each (is_sound_bookcase inp) inp.bookcases)
        (check_each (is_sound_section inp) inp.sections
          >> (check_each (is_sound_shelf inp) inp.shelves
              >> (check_each (is_sound_book inp) inp.owned_books
                  >> (check_each (is_sound_read inp) inp.book_reads
                      >> (check_each (is_sound_loan inp) inp.book_loans
                          >> check_each (is_sound_event inp) inp.book_history)))))
        s (check_each-Checks (is_sound_bookcase inp) inp.bookcases s)
        (then-Checks (check_each (is_sound_section inp) inp.sections)
          (check_each (is_sound_shelf inp) inp.shelves
            >> (check_each (is_sound_book inp) inp.owned_books
                >> (check_each (is_sound_read inp) inp.book_reads
                    >> (check_each (is_sound_loan inp) inp.book_loans
                        >> check_each (is_sound_event inp) inp.book_history))))
          s (check_each-Checks (is_sound_section inp) inp.sections s)
          (then-Checks (check_each (is_sound_shelf inp) inp.shelves)
            (check_each (is_sound_book inp) inp.owned_books
              >> (check_each (is_sound_read inp) inp.book_reads
                  >> (check_each (is_sound_loan inp) inp.book_loans
                      >> check_each (is_sound_event inp) inp.book_history)))
            s (check_each-Checks (is_sound_shelf inp) inp.shelves s)
            (then-Checks (check_each (is_sound_book inp) inp.owned_books)
              (check_each (is_sound_read inp) inp.book_reads
                >> (check_each (is_sound_loan inp) inp.book_loans
                    >> check_each (is_sound_event inp) inp.book_history))
              s (check_each-Checks (is_sound_book inp) inp.owned_books s)
              (then-Checks (check_each (is_sound_read inp) inp.book_reads)
                (check_each (is_sound_loan inp) inp.book_loans
                  >> check_each (is_sound_event inp) inp.book_history)
                s (check_each-Checks (is_sound_read inp) inp.book_reads s)
                (then-Checks (check_each (is_sound_loan inp) inp.book_loans)
                  (check_each (is_sound_event inp) inp.book_history) s
                  (check_each-Checks (is_sound_loan inp) inp.book_loans s)
                  (check_each-Checks (is_sound_event inp) inp.book_history s))))))) [
                    | inl bad ↦ inl bad
                    | inr
                          (
                            good,
                            (bookcases, (sections, (shelves, (books, (reads, (loans, history)))))),
                          ) ↦
                        inr (
                          good,
                          record {
                            bookcases = bookcases;
                            sections = sections;
                            shelves = shelves;
                            books = books;
                            reads = reads;
                            loans = loans;
                            history = history;
                          },
                        )
                  ]

  -- A backup in which every reference is to a row of it passes.
  check_each-All :
      {Item : Type 0} (p : Item → Bool) (xs : List Item) (s : S)
      → All (λ x. p x ≡ true) xs
      → check_each p xs s ≡ (ok tt, s)
  check_each-All p [] s h = refl
  check_each-All p (x ∷ xs) s (here, later) = ground (arith, check_each-All p xs s later)

  pub validate_referential_integrity-passes :
      (inp : ImportFullLibraryInput) (s : S)
      → IsSound inp
      → validate_referential_integrity inp s ≡ (ok tt, s)
  unfolding validate_referential_integrity
  validate_referential_integrity-passes inp s h = ground (
    arith,
    check_each-All (is_sound_bookcase inp) inp.bookcases s h.bookcases,
    check_each-All (is_sound_section inp) inp.sections s h.sections,
    check_each-All (is_sound_shelf inp) inp.shelves s h.shelves,
    check_each-All (is_sound_book inp) inp.owned_books s h.books,
    check_each-All (is_sound_read inp) inp.book_reads s h.reads,
    check_each-All (is_sound_loan inp) inp.book_loans s h.loans,
    check_each-All (is_sound_event inp) inp.book_history s h.history,
  )

-- ===== src/Kids/Sessions/Logging.antt =====
-- Who may log a session, and what it does to the copy.
use jinbocho_catalog_v.Base.{
  ℕ, ◌≡◌, refl, sym, ◌⊎◌, inl, inr, true, Option, none, some, [], ◌∷◌, ◌++◌, arith, ◌==◌,
  Bool-cases, Option-cases,
}
use jinbocho_catalog_v.Domain.Book.{OwnedBook, reading}
use jinbocho_catalog_v.Exec.{ok, Result-cases}
use jinbocho_catalog_v.Catalog.BookRepo.{book_by_id}
use jinbocho_catalog_v.Catalog.Rows.{book_by_id-save, book_by_id-id}
use jinbocho_catalog_v.Catalog.Access.{library_in}
use jinbocho_catalog_v.Catalog.ReadingStatus.Effects.{reader_in}
use jinbocho_catalog_v.Kids.State.{
  ReadingSessionMode, independent, together, ReadingSession, Kids, is_parent,
}
use jinbocho_catalog_v.Kids.Sessions.{LogReadingSessionInput, log_reading_session}

-- Who a session may be logged by: a parent, of a shared session, or the reader.
abbrev pub MayLog : ReadingSessionMode → LogReadingSessionInput → Option ℕ → Type 0
MayLog together inp logger =
    (is_parent inp.requester_role ≡ true) × (logger ≡ some inp.requester_user_id)
MayLog independent inp logger = (inp.target_user_id ≡ inp.requester_user_id) × (logger ≡ none)

Mode-cases : (m : ReadingSessionMode) → (m ≡ independent) ⊎ (m ≡ together)
Mode-cases independent = inl refl
Mode-cases together = inr refl

module _ (inp : LogReadingSessionInput) (new_id now today : ℕ) (s : Kids) where
  logged_session :
      (mode : ReadingSessionMode) {x : ReadingSession}
      → inp.mode ≡ mode
      → (log_reading_session inp new_id now today s).0 ≡ ok x
      → MayLog mode inp x.logged_by_user_id
  unfolding log_reading_session
  logged_session together e h = ground arith
  logged_session independent e h = ground arith

  -- A session that is logged is the child's, on a copy of the caller's library, and is added to the
  -- table; a shared session is logged by a parent, and any other by the reader alone.
  pub log_reading_session-MayLog :
      {x : ReadingSession}
      → (log_reading_session inp new_id now today s).0 ≡ ok x
      → MayLog inp.mode inp x.logged_by_user_id
        × (x.user_id ≡ inp.target_user_id)
        × (library_in s.catalog inp.owned_book_id ≡ some inp.library_id)
        × ((log_reading_session inp new_id now today s).1.sessions ≡ s.sessions ++ (x ∷ []))
  unfolding log_reading_session
  log_reading_session-MayLog h =
      (logged_session inp.mode refl h, ground arith, ground arith, ground arith)

  -- A log, whether it returns or raises, takes no copy away from its reader; and a copy that gets a
  -- reader by it gets the child of a shared session on that copy.
  pub log_reading_session-reader :
      (k : ℕ)
      → let before = reader_in s.catalog k in
        let after = reader_in (log_reading_session inp new_id now today s).1.catalog k in
        (after ≡ before)
        ⊎ ((before ≡ none)
            × (after ≡ some inp.target_user_id)
            × (inp.mode ≡ together)
            × (k ≡ inp.owned_book_id))
  unfolding log_reading_session
  log_reading_session-reader k =
      elim (Result-cases (log_reading_session inp new_id now today s).0) [
        | inr (e, out) ↦ inl (ground arith)
        | inl (x, out) ↦ elim (Option-cases (book_by_id inp.owned_book_id s.catalog.books)) [
          | inl gone ↦ inl (ground arith)
          | inr (b, found) ↦
              let key = book_by_id-id inp.owned_book_id s.catalog.books b found in
              let claimed : OwnedBook = record b {
                current_reader_id = some inp.target_user_id;
                reading_status = reading;
                updated_at = now;
              } in
              let saved = book_by_id-save claimed s.catalog.books k in
              elim (Mode-cases inp.mode) [
                | inl alone ↦ inl (ground arith)
                | inr shared ↦ elim (Option-cases b.current_reader_id) [
                  | inr (u, held) ↦ inl (ground arith)
                  | inl free ↦ elim (Bool-cases (inp.owned_book_id == k)) [
                    | inr other ↦ inl (ground (arith, saved, key))
                    | inl same ↦
                        let here : inp.owned_book_id ≡ k = ground arith in
                        let at : book_by_id k s.catalog.books ≡ some b = rw (← here) found in
                        inr (ground arith, ground (arith, saved, key), shared, sym here)
                  ]
                ]
              ]
        ]
      ]

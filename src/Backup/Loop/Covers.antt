-- ===== src/Backup/Loop/Covers.antt =====
-- What the loops of an import leave in their map of ids, and that they look up no id that is not there.
use jinbocho_catalog_v.Base.{
  ℕ, suc, ◌≡◌, ◌⊎◌, refl, Bool, true, false, Option, none, some, inl, inr, List, [], ◌∷◌, arith,
  ◌==◌, ◌||◌, is_some, contains, All, Option-cases,
}
use jinbocho_catalog_v.Domain.Errors.{Error, key_error}
use jinbocho_catalog_v.Exec.{Result, Exec, ok, err, Result-cases}
use jinbocho_catalog_v.Backup.Input.{IdMap}
use jinbocho_catalog_v.Backup.Session.{Session}
use jinbocho_catalog_v.Backup.Validate.{ids_of}
use jinbocho_catalog_v.Backup.Loop.{
  get, get_or_raise, Imported, draw, keep_or_add, import_all, restore_all,
}

abbrev pub is_key : Error → Bool
is_key key_error = true
is_key _ = false

abbrev pub is_key_error : {A : Type 0} → Result A → Bool
is_key_error (ok a) = false
is_key_error (err e) = is_key e

-- A use case that looks up no id that is not there, from any state.
abbrev pub Safe : {A : Type 0} → Exec Session A → Type 0
Safe m = (s : Session) → is_key_error (m s).0 ≡ false

-- How a safe step ends.
abbrev pub Ends : {A : Type 0} → Exec Session A → Session → Type 0
Ends {A = A} m s =
    ((a : A) × (t : Session) × (m s ≡ (ok a, t)))
    ⊎ ((e : Error) × (t : Session) × (m s ≡ (err e, t)) × (is_key e ≡ false))

pub safe-Ends :
    {A : Type 0} (m : Exec Session A) (s : Session) → is_key_error (m s).0 ≡ false → Ends m s
safe-Ends m s fine = elim (Result-cases (m s).0) [
  | inl (a, out) ↦ inl (a, (m s).1, ground (arith, out))
  | inr (e, bad) ↦ inr (e, (m s).1, ground (arith, bad), ground (arith, bad, fine))
]

pub get_or_raise-Safe :
    (k : ℕ) (ids : IdMap) → is_some (get k ids) ≡ true → Safe (get_or_raise k ids)
get_or_raise-Safe k ids h s = elim (Option-cases (get k ids)) [
  | inl gone ↦ absurd (ground arith)
  | inr (x, found) ↦ ground arith
]

module _ (uuid4 : ℕ → ℕ) {Item : Type 0} (id : Item → ℕ) (find : Item → Exec Session (Option ℕ))
    (add : Item → ℕ → Exec Session (Unit {0})) where
  keep_or_add-covers :
      (item : Item) (acc : Imported) (existing : Option ℕ) (s : Session) {out : Imported} (k : ℕ)
      → (keep_or_add uuid4 id find add item acc existing s).0 ≡ ok out
      → is_some (get k out.ids) ≡ (id item == k || is_some (get k acc.ids))
  unfolding keep_or_add draw
  keep_or_add-covers item acc (some x) s k h = ground arith
  keep_or_add-covers item acc none s k h = ground arith

  -- A loop that returns has an id for each item, and for what it had an id before, and no other.
  pub import_all-covers :
      (items : List Item) (acc : Imported) (s : Session) {out : Imported} (k : ℕ)
      → (import_all uuid4 id find add items acc s).0 ≡ ok out
      → is_some (get k out.ids) ≡ (contains k (ids_of id items) || is_some (get k acc.ids))
  unfolding import_all
  import_all-covers [] acc s k h = ground arith
  import_all-covers (item ∷ items) acc s {out} k h = elim (Result-cases (find item s).0) [
    | inr (e, bad) ↦ absurd (ground arith)
    | inl (existing, found) ↦
        let t = (find item s).1 in
        elim (Result-cases (keep_or_add uuid4 id find add item acc existing t).0) [
          | inr (e, bad) ↦ absurd (ground arith)
          | inl (next, kept) ↦
              let first = keep_or_add-covers item acc existing t k kept in
              let u = (keep_or_add uuid4 id find add item acc existing t).1 in
              let later = import_all-covers items next u {out = out} k (ground arith) in
              ground (arith, first, later)
        ]
  ]

  keep_or_add-Safe :
      (item : Item) (acc : Imported) (existing : Option ℕ)
      → ((k : ℕ) → Safe (add item k))
      → Safe (keep_or_add uuid4 id find add item acc existing)
  unfolding keep_or_add draw
  keep_or_add-Safe item acc (some x) safe = λ s. refl
  keep_or_add-Safe item acc none safe = λ s.
      let t = record s { drawn = suc s.drawn } in
      elim (Result-cases (add item (uuid4 s.drawn) t).0) [
        | inl (u, out) ↦ ground arith
        | inr (e, bad) ↦ ground (arith, safe (uuid4 s.drawn) t)
      ]

  pub import_all-Safe :
      (items : List Item) (acc : Imported)
      → All (λ i. Safe (find i) × ((k : ℕ) → Safe (add i k))) items
      → Safe (import_all uuid4 id find add items acc)
  unfolding import_all
  import_all-Safe [] acc safe = λ s. refl
  import_all-Safe (item ∷ items) acc ((fine, added), later) = λ s.
      elim (safe-Ends (find item) s (fine s)) [
        | inr (e, t, bad, other) ↦ ground (arith, bad, other)
        | inl (existing, t, found) ↦
            elim (safe-Ends (keep_or_add uuid4 id find add item acc existing) t
              (keep_or_add-Safe item acc existing added t)) [
                | inr (e, u, bad, other) ↦ ground (arith, found, bad, other)
                | inl (next, u, kept) ↦
                    ground (arith, found, kept, import_all-Safe items next later u)
              ]
      ]

pub restore_all-Safe :
    {Item : Type 0} (one : Item → Exec Session ℕ) (items : List Item)
    → ((i : Item) → Safe (one i))
    → Safe (restore_all one items)
unfolding restore_all
restore_all-Safe one [] safe = λ s. refl
restore_all-Safe one (item ∷ items) safe = λ s. elim (Result-cases (one item s).0) [
  | inr (e, bad) ↦ ground (arith, safe item s)
  | inl (n, out) ↦
      let later = restore_all-Safe one items safe (one item s).1 in
      elim (Result-cases (restore_all one items (one item s).1).0) [
        | inr (e, bad) ↦ ground (arith, later)
        | inl (m, done) ↦ ground arith
      ]
]

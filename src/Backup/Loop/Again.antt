-- ===== src/Backup/Loop/Again.antt =====
-- A loop of an import, and the same loop again.
use jinbocho_catalog_v.Base.{
  ℕ, suc, ◌≡◌, refl, Option, none, some, inl, inr, List, [], ◌∷◌, arith, ◌+◌, All, length,
  Option-cases, or_else,
}
use jinbocho_catalog_v.Exec.{Exec, ok}
use jinbocho_catalog_v.Backup.Input.{IdMap}
use jinbocho_catalog_v.Backup.Session.{Session}
use jinbocho_catalog_v.Backup.Loop.{set, Imported, draw, keep_or_add, import_all}

module _ (uuid4 : ℕ → ℕ) {Item : Type 0} (id : Item → ℕ) (find : Item → Exec Session (Option ℕ))
    (add : Item → ℕ → Exec Session (Unit {0})) (look : Item → Session → Option ℕ)
    (Inv : Session → Type 0) where
  -- What was there stays there.
  abbrev pub Stays : Session → Session → Type 0
  Stays s t = (j : Item) (x : ℕ) → look j s ≡ some x → look j t ≡ some x

  -- The search reads, and a row that is added under the next id is found, with all that was found before.
  pub record IsSteady : Type 0 where
    pub looks : (i : Item) (s : Session) → find i s ≡ (ok (look i s), s)
    pub adds :
        (i : Item) (s : Session)
        → Inv s
        → look i s ≡ none
        → (t : Session) × (add i (uuid4 s.drawn) (record s { drawn = suc s.drawn }) ≡ (ok tt, t))
          × Inv t
          × (look i t ≡ some (uuid4 s.drawn))
          × Stays s t

  -- The ids of the items, as a session has them.
  abbrev pub ids_after : List Item → Session → IdMap → IdMap
  ids_after [] t ids = ids
  ids_after (i ∷ items) t ids = ids_after items t (set (id i) (or_else (look i t) 0) ids)

  module _ (h : IsSteady) where
    step :
        (i : Item) (acc : Imported) (s : Session)
        → Inv s
        → (next : Imported) × (t : Session) × (keep_or_add uuid4 id find add i acc (look i s) s
            ≡ (ok next, t))
          × Inv t
          × Stays s t
          × (x : ℕ) × (look i t ≡ some x)
          × (next.ids ≡ set (id i) x acc.ids)
    unfolding keep_or_add draw
    step i acc s inv = elim (Option-cases (look i s)) [
      | inr (x, there) ↦ (
        record acc { ids = set (id i) x acc.ids; deduped = suc acc.deduped },
        s,
        ground (arith, there),
        inv,
        (λ j y f. f),
        x,
        there,
        refl,
      )
      | inl absent ↦
          let (t, added, inv', hit, stays) = h.adds i s inv absent in
          (
            record acc { ids = set (id i) (uuid4 s.drawn) acc.ids; imported = suc acc.imported },
            t,
            ground (arith, absent, added),
            inv',
            stays,
            uuid4 s.drawn,
            hit,
            refl,
          )
    ]

    -- The loop returns, has every item in the end, and loses nothing.
    pub run :
        (items : List Item) (acc : Imported) (s : Session)
        → Inv s
        → (out : Imported) × (t : Session) × (import_all uuid4 id find add items acc s
            ≡ (ok out, t))
          × Inv t
          × Stays s t
          × (out.ids ≡ ids_after items t acc.ids)
          × All (λ i. (x : ℕ) × (look i t ≡ some x)) items
    unfolding import_all
    run [] acc s inv = (acc, s, refl, inv, (λ j x f. f), refl, tt)
    run (i ∷ items) acc s inv =
        let (next, t, kept, inv', stays, x, hit, ids) = step i acc s inv in
        let (out, u, rest, inv'', stays', ids', all) = run items next t inv' in
        let last = stays' i x hit in
        (
          out,
          u,
          ground (arith, h.looks i s, kept, rest),
          inv'',
          (λ j y f. stays' j y (stays j y f)),
          ground (arith, ids, ids', last),
          ((x, last), all),
        )

    -- Where every item is there, the loop writes nothing, and counts each as a duplicate.
    pub run_again :
        (items : List Item) (acc : Imported) (t : Session)
        → All (λ i. (x : ℕ) × (look i t ≡ some x)) items
        → import_all uuid4 id find add items acc t ≡ (
          ok (record {
            ids = ids_after items t acc.ids;
            imported = acc.imported;
            deduped = acc.deduped + length items;
          }),
          t,
        )
    unfolding import_all keep_or_add
    run_again [] acc t all = ground arith
    run_again (i ∷ items) acc t ((x, there), all) =
        let next : Imported = record acc {
          ids = set (id i) x acc.ids;
          deduped = suc acc.deduped;
        } in
        let rest = run_again items next t all in ground (arith, h.looks i t, there, rest)

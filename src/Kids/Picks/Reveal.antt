-- ===== src/Kids/Picks/Reveal.antt =====
-- Who can reveal a mystery pick.
use jinbocho_catalog_v.Base.{
  ℕ, ◌≡◌, refl, ◌⊎◌, inl, inr, Bool, true, some, List, arith, ◌==◌, Bool-cases, Option-cases,
}
use jinbocho_catalog_v.Base.Table.{get-save}
use jinbocho_catalog_v.Exec.{ok, Result-cases}
use jinbocho_catalog_v.Kids.State.{MysteryPick, accepted, Kids}
use jinbocho_catalog_v.Kids.Picks.{pick_by_id, assign_status, accept_mystery_pick}

pick_by_id-id :
    (k : ℕ) (rows : List MysteryPick) (p : MysteryPick) → pick_by_id k rows ≡ some p → p.id ≡ k
pick_by_id-id k List.[] p h = cc
pick_by_id-id k (List.◌∷◌ r rows) p h = ground (arith, pick_by_id-id k rows p)

module _ (pick_id library_id user : ℕ) (kids_mode : Bool) (s : Kids) where
  -- Accepting a pick returns exactly when kids mode is on and the pick is there, of the caller's
  -- library and proposed to the caller.
  pub accept_mystery_pick-accepts :
      (p : MysteryPick)
      → kids_mode ≡ true
      → pick_by_id pick_id s.picks ≡ some p
      → p.library_id ≡ library_id
      → p.child_user_id ≡ user
      → (accept_mystery_pick pick_id library_id user kids_mode s).0
        ≡ ok (record p { status = accepted })
  unfolding accept_mystery_pick
  accept_mystery_pick-accepts p on found lib child = ground arith

  -- A call changes the row of a pick only by setting the status of the pick that it names to
  -- accepted, and only when that pick was proposed to the caller, in the caller's library and in kids
  -- mode.
  pub accept_mystery_pick-reveals :
      (k : ℕ)
      → let before = pick_by_id k s.picks in
        let after =
          pick_by_id k (accept_mystery_pick pick_id library_id user kids_mode s).1.picks in
        (after ≡ before)
        ⊎ ((k ≡ pick_id)
            × (kids_mode ≡ true)
            × ((p : MysteryPick) × (before ≡ some p)
                × (p.child_user_id ≡ user)
                × (p.library_id ≡ library_id)
                × (after ≡ some (record p { status = accepted }))))
  unfolding accept_mystery_pick
  accept_mystery_pick-reveals k =
      elim (Result-cases (accept_mystery_pick pick_id library_id user kids_mode s).0) [
        | inr (e, out) ↦ inl (ground arith)
        | inl (x, out) ↦ elim (Option-cases (pick_by_id pick_id s.picks)) [
          | inl gone ↦ inl (ground arith)
          | inr (p, found) ↦
              let key = pick_by_id-id pick_id s.picks p found in
              let new : MysteryPick = record p { status = accepted } in
              let saved =
                get-save (λ (q : MysteryPick). q.id) assign_status new s.picks k (λ old. refl) in
              elim (Bool-cases (pick_id == k)) [
                | inr other ↦ inl (ground (arith, saved, key))
                | inl same ↦
                    let here : k ≡ pick_id = ground arith in
                    let at : pick_by_id k s.picks ≡ some p = rw here found in
                    inr (
                      here,
                      ground arith,
                      (p, at, ground arith, ground arith, ground (arith, saved, key)),
                    )
              ]
        ]
      ]

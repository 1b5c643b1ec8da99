-- ===== src/Club/Cycles/Machine.antt =====
-- The status of a cycle as a state machine.
use jinbocho_catalog_v.Base.{
  ℕ, ◌≡◌, refl, ◌⊎◌, inl, inr, true, none, some, List, [], ◌∷◌, arith, ◌==◌, if◌then◌else◌,
  Option-cases, Bool-cases,
}
use jinbocho_catalog_v.Base.Table
use jinbocho_catalog_v.Exec.{ok}
use jinbocho_catalog_v.Club.State.{
  BookClubCycleStatus, proposing, voting, reading, discussing, archived, BookClubCycle, Club,
  is_allowed,
}
use jinbocho_catalog_v.Club.Cycles.{cycle_by_id, assign, advance_cycle_status, archive_cycle}

-- The moves of the diagram: forward, and one step back from discussion and from the archive.
pub data Move : BookClubCycleStatus → BookClubCycleStatus → Type 0 where
  open_voting : Move proposing voting
  choose : Move proposing reading
  close_voting : Move voting reading
  discuss : Move reading discussing
  archive : Move discussing archived
  undo_discuss : Move discussing reading
  reopen : Move archived discussing

pub is_allowed-Move : (a b : BookClubCycleStatus) → is_allowed a b ≡ true → Move a b
is_allowed-Move proposing voting h = open_voting
is_allowed-Move proposing reading h = choose
is_allowed-Move voting reading h = close_voting
is_allowed-Move reading discussing h = discuss
is_allowed-Move discussing archived h = archive
is_allowed-Move discussing reading h = undo_discuss
is_allowed-Move archived discussing h = reopen
is_allowed-Move _ _ h = cc

-- The cycles after a cycle of the table is written back with another status.
abbrev pub moved : ℕ → BookClubCycle → BookClubCycleStatus → Club → Club
moved k c target s = record s {
  cycles =
      Table.update_where (λ (x : BookClubCycle). x.id == k)
        (λ x. assign x (record c { status = target })) s.cycles;
}

pub cycle_by_id-id :
    (k : ℕ) (cycles : List BookClubCycle) (c : BookClubCycle)
    → cycle_by_id k cycles ≡ some c
    → c.id ≡ k
cycle_by_id-id k [] c h = cc
cycle_by_id-id k (x ∷ cycles) c h = ground (arith, cycle_by_id-id k cycles c)

pub cycle_by_id-update :
    (k j : ℕ) (new : BookClubCycle) (cycles : List BookClubCycle)
    → cycle_by_id j
        (Table.update_where (λ (x : BookClubCycle). x.id == k) (λ x. assign x new) cycles)
      ≡ (if k == j
          then elim (cycle_by_id j cycles) [ none ↦ none | some c ↦ some (assign c new) ]
          else cycle_by_id j cycles)
cycle_by_id-update k j new [] = ground arith
cycle_by_id-update k j new (x ∷ cycles) = ground (arith, cycle_by_id-update k j new cycles)

module _ (k lib : ℕ) (target : BookClubCycleStatus) (s : Club) where
  -- A status change that returns finds the cycle in the caller's library, makes a move of the
  -- diagram, gives the cycle with that status, and leaves every other cycle and table alone.
  pub advance_cycle_status-Move :
      {c' : BookClubCycle}
      → (advance_cycle_status k lib target s).0 ≡ ok c'
      → (c : BookClubCycle) × (cycle_by_id k s.cycles ≡ some c)
        × (c.library_id ≡ lib)
        × Move c.status target
        × (c' ≡ record c { status = target })
        × ((advance_cycle_status k lib target s).1 ≡ moved k c target s)
  unfolding advance_cycle_status
  advance_cycle_status-Move h = elim (Option-cases (cycle_by_id k s.cycles)) [
    | inl gone ↦ ground arith
    | inr (c, found) ↦
        let key = cycle_by_id-id k s.cycles c found in
        (
          c,
          found,
          ground arith,
          is_allowed-Move c.status target (ground arith),
          ground arith,
          ground arith,
        )
  ]

  -- A status change that raises leaves every table as it was.
  pub advance_cycle_status-state :
      ((advance_cycle_status k lib target s).1 ≡ s)
      ⊎ ((c' : BookClubCycle) × ((advance_cycle_status k lib target s).0 ≡ ok c'))
  unfolding advance_cycle_status
  advance_cycle_status-state = elim (Option-cases (cycle_by_id k s.cycles)) [
    | inl gone ↦ inl (ground arith)
    | inr (c, found) ↦ elim (Bool-cases (c.library_id == lib)) [
      | inr other ↦ inl (ground arith)
      | inl own ↦ elim (Bool-cases (is_allowed c.status target)) [
        | inr refused ↦ inl (ground arith)
        | inl fits ↦
            inr (record c { status = target }, ground (arith, cycle_by_id-id k s.cycles c found))
      ]
    ]
  ]

-- Archiving is the move into the archive.
pub archive_cycle-advance :
    (k lib : ℕ) (s : Club) → archive_cycle k lib s ≡ advance_cycle_status k lib archived s
unfolding archive_cycle advance_cycle_status
archive_cycle-advance k lib s = refl

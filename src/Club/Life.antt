-- ===== src/Club/Life.antt =====
-- The calls of the book club's use cases, and what each does to the cycles.
pub mod UnderWay
pub mod Archived
use jinbocho_catalog_v.Base.{
  ℕ, String, ◌≡◌, refl, ◌≢◌, ◌⊎◌, inl, inr, Bool, true, false, Option, none, some, List, [], ◌∷◌,
  arith, ◌==◌, not, if◌then◌else◌, Option-cases, Bool-cases, All, ap,
}
use jinbocho_catalog_v.Base.Table
use jinbocho_catalog_v.Domain.Errors.{Error}
use jinbocho_catalog_v.Exec.{ok, err, Result-cases}
use jinbocho_catalog_v.Club.State.{
  BookClubCycleStatus, proposing, voting, reading, discussing, archived, BookClubCycle, Club,
}
use jinbocho_catalog_v.Club.Cycles.{
  CreateCycleInput, cycle_by_id, assign, check_copy, create_cycle, advance_cycle_status,
  archive_cycle,
}
use jinbocho_catalog_v.Club.Cycles.Machine.{
  Move, open_voting, choose, close_voting, discuss, archive, undo_discuss, reopen, moved,
  cycle_by_id-update, advance_cycle_status-Move, advance_cycle_status-state, archive_cycle-advance,
}
use jinbocho_catalog_v.Club.Proposals.{propose_book, toggle_vote, promote_proposal}

-- A call of one of the use cases that write cycles, proposals or votes, with any arguments; it may
-- return or raise.
pub data Call (strip : String → String) : Club → Club → Type 0 where
  create :
      (inp : CreateCycleInput) (id now : ℕ) (s : Club)
      → Call strip s (create_cycle strip inp id now s).1
  advance :
      (k lib : ℕ) (target : BookClubCycleStatus) (s : Club)
      → Call strip s (advance_cycle_status k lib target s).1
  close : (k lib : ℕ) (s : Club) → Call strip s (archive_cycle k lib s).1
  vote : (p lib user id now : ℕ) (s : Club) → Call strip s (toggle_vote p lib user id now s).1
  propose :
      (lib user rec : ℕ) (note : Option String) (id now : ℕ) (s : Club)
      → Call strip s (propose_book lib user rec note id now s).1
  promote :
      (p lib user id now : ℕ) (s : Club)
      → Call strip s (promote_proposal strip p lib user id now s).1

pub data Reach (strip : String → String) (s : Club) : Club → Type 0 where
  here : Reach strip s s
  next : {t u : Club} → Reach strip s t → Call strip t u → Reach strip s u

-- What a call does to the cycles: nothing, or one more that is being read, or one moved along the
-- diagram.
abbrev pub CyclesStep : List BookClubCycle → List BookClubCycle → Type 0
CyclesStep cs cs' =
    (cs' ≡ cs)
    ⊎ (((c : BookClubCycle) × (c.status ≡ reading) × (cs' ≡ Table.insert c cs))
        ⊎ ((k : ℕ) × (c : BookClubCycle) × (target : BookClubCycleStatus) × (cycle_by_id k cs
              ≡ some c)
            × Move c.status target
            × (cs'
                ≡ Table.update_where (λ (x : BookClubCycle). x.id == k)
                    (λ x. assign x (record c { status = target })) cs)))

advance-CyclesStep :
    (k lib : ℕ) (target : BookClubCycleStatus) (s : Club)
    → CyclesStep s.cycles (advance_cycle_status k lib target s).1.cycles
advance-CyclesStep k lib target s = elim (advance_cycle_status-state k lib target s) [
  | inl same ↦ inl (ap (λ (u : Club). u.cycles) same)
  | inr (c', out) ↦
      let (c, found, own, move, e, after) = advance_cycle_status-Move k lib target s out in
      inr (inr (k, c, target, found, move, ap (λ (u : Club). u.cycles) after))
]

module _ (strip : String → String) where
  module _ (inp : CreateCycleInput) (id now : ℕ) (s : Club) where
    create-ok :
        (c : BookClubCycle)
        → (create_cycle strip inp id now s).0 ≡ ok c
        → (c.status ≡ reading)
          × ((create_cycle strip inp id now s).1.cycles ≡ Table.insert c s.cycles)
    unfolding create_cycle
    create-ok c h = ground arith

    create-err :
        (e : Error)
        → (create_cycle strip inp id now s).0 ≡ err e
        → (create_cycle strip inp id now s).1.cycles ≡ s.cycles
    unfolding create_cycle
    create-err e h = ground arith

    create-CyclesStep : CyclesStep s.cycles (create_cycle strip inp id now s).1.cycles
    create-CyclesStep = elim (Result-cases (create_cycle strip inp id now s).0) [
      | inl (c, out) ↦ inr (inl (c, (create-ok c out).0, (create-ok c out).1))
      | inr (e, out) ↦ inl (create-err e out)
    ]

  module _ (p lib user id now : ℕ) (s : Club) where
    promote-ok :
        (c : BookClubCycle)
        → (promote_proposal strip p lib user id now s).0 ≡ ok c
        → (c.status ≡ reading)
          × ((promote_proposal strip p lib user id now s).1.cycles ≡ Table.insert c s.cycles)
    unfolding promote_proposal
    promote-ok c h = ground arith

    promote-err :
        (e : Error)
        → (promote_proposal strip p lib user id now s).0 ≡ err e
        → (promote_proposal strip p lib user id now s).1.cycles ≡ s.cycles
    unfolding promote_proposal
    promote-err e h = ground arith

    promote-CyclesStep : CyclesStep s.cycles (promote_proposal strip p lib user id now s).1.cycles
    promote-CyclesStep = elim (Result-cases (promote_proposal strip p lib user id now s).0) [
      | inl (c, out) ↦ inr (inl (c, (promote-ok c out).0, (promote-ok c out).1))
      | inr (e, out) ↦ inl (promote-err e out)
    ]

  vote-CyclesStep :
      (p lib user id now : ℕ) (s : Club) → (toggle_vote p lib user id now s).1.cycles ≡ s.cycles
  unfolding toggle_vote
  vote-CyclesStep p lib user id now s = ground arith

  propose-CyclesStep :
      (lib user rec : ℕ) (note : Option String) (id now : ℕ) (s : Club)
      → (propose_book lib user rec note id now s).1.cycles ≡ s.cycles
  unfolding propose_book
  propose-CyclesStep lib user rec remark id now s = ground arith

  pub Call-CyclesStep : {s t : Club} → Call strip s t → CyclesStep s.cycles t.cycles
  Call-CyclesStep (create inp id now s) = create-CyclesStep inp id now s
  Call-CyclesStep (advance k lib target s) = advance-CyclesStep k lib target s
  Call-CyclesStep (close k lib s) = rw archive_cycle-advance (advance-CyclesStep k lib archived s)
  Call-CyclesStep (vote p lib user id now s) = inl (vote-CyclesStep p lib user id now s)
  Call-CyclesStep (propose lib user rec remark id now s) =
      inl (propose-CyclesStep lib user rec remark id now s)
  Call-CyclesStep (promote p lib user id now s) = promote-CyclesStep p lib user id now s

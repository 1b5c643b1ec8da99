-- ===== src/Club/Life/Archived.antt =====
-- How a cycle comes to be archived.
use jinbocho_catalog_v.Base.{
  ℕ, String, ◌≡◌, refl, ◌≢◌, ◌⊎◌, inl, inr, Option, none, some, List, arith, ◌==◌, Bool-cases,
}
use jinbocho_catalog_v.Base.Table
use jinbocho_catalog_v.Club.State.{BookClubCycleStatus, discussing, archived, BookClubCycle, Club}
use jinbocho_catalog_v.Club.Cycles.{cycle_by_id}
use jinbocho_catalog_v.Club.Cycles.Machine.{
  Move, open_voting, choose, close_voting, discuss, archive, undo_discuss, reopen,
  cycle_by_id-update,
}
use jinbocho_catalog_v.Club.Life.{Reach, here, next, CyclesStep, Call-CyclesStep}

Move-archived : {a b : BookClubCycleStatus} → Move a b → b ≡ archived → a ≡ discussing
Move-archived open_voting h = cc
Move-archived choose h = cc
Move-archived close_voting h = cc
Move-archived discuss h = cc
Move-archived archive h = refl
Move-archived undo_discuss h = cc
Move-archived reopen h = cc

abbrev pub status_of : ℕ → List BookClubCycle → Option BookClubCycleStatus
status_of k cs = elim (cycle_by_id k cs) [ none ↦ none | some c ↦ some c.status ]

-- A cycle that is archived after a call was archived before it, or was being discussed.
CyclesStep-archived :
    (j : ℕ) (cs cs' : List BookClubCycle)
    → CyclesStep cs cs'
    → status_of j cs' ≡ some archived
    → (status_of j cs ≡ some archived) ⊎ (status_of j cs ≡ some discussing)
CyclesStep-archived j cs cs' (inl same) h = inl (ground arith)
CyclesStep-archived j cs cs' (inr (inl (c, new, e))) h =
    inl (ground (arith, Table.find-insert (λ (x : BookClubCycle). x.id == j) c cs))
CyclesStep-archived j cs cs' (inr (inr (k, c, target, found, move, e))) h =
    elim (Bool-cases (k == j)) [
      | inl same ↦
          let key : k ≡ j = ground arith in
          let here_too : cycle_by_id j cs ≡ some c = rw (← key) found in
          inr (
            ground (
              arith,
              Move-archived move
                  (ground (arith, cycle_by_id-update k j (record c { status = target }) cs)),
            ))
      | inr other ↦ inl (ground (arith, cycle_by_id-update k j (record c { status = target }) cs))
    ]

-- The cycle `k` had the status at some point of the calls.
abbrev pub Passed :
    {strip : String → String} {s t : Club} → Reach strip s t → ℕ → BookClubCycleStatus → Type 0
Passed {s = s} here k status = status_of k s.cycles ≡ some status
Passed (next {u = u} r call) k status = Passed r k status ⊎ (status_of k u.cycles ≡ some status)

Passed-end :
    {strip : String → String} {s t : Club} (r : Reach strip s t) (k : ℕ)
    (status : BookClubCycleStatus)
    → status_of k t.cycles ≡ some status
    → Passed r k status
Passed-end here k status h = h
Passed-end (next r call) k status h = inr h

-- A cycle that is archived after some calls, and was not at the start (or did not exist), was open
-- for discussion at some point between.
pub Reach-archived :
    {strip : String → String} {s t : Club} (r : Reach strip s t) (k : ℕ)
    → status_of k s.cycles ≢ some archived
    → status_of k t.cycles ≡ some archived
    → Passed r k discussing
Reach-archived here k fresh h = absurd (fresh h)
Reach-archived {strip = strip} (next {t = t} {u = u} r call) k fresh h =
    elim (CyclesStep-archived k t.cycles u.cycles (Call-CyclesStep strip call) h) [
      | inl before ↦ inl (Reach-archived r k fresh before)
      | inr discussed ↦ inl (Passed-end r k discussing discussed)
    ]

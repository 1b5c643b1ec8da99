-- ===== src/Club/Life/UnderWay.antt =====
-- No cycle ever waits for the choice of a book.
use jinbocho_catalog_v.Base.{
  ℕ, String, ◌≡◌, refl, inl, inr, Bool, true, false, some, List, [], ◌∷◌, arith, ◌==◌, All,
}
use jinbocho_catalog_v.Base.Table
use jinbocho_catalog_v.Club.State.{BookClubCycleStatus, proposing, voting, BookClubCycle, Club}
use jinbocho_catalog_v.Club.Cycles.{cycle_by_id, assign}
use jinbocho_catalog_v.Club.Cycles.Machine.{
  Move, open_voting, choose, close_voting, discuss, archive, undo_discuss, reopen,
}
use jinbocho_catalog_v.Club.Life.{Reach, here, next, CyclesStep, Call-CyclesStep}

-- A cycle that is past the choice of a book.
abbrev pub under_way : BookClubCycleStatus → Bool
under_way proposing = false
under_way voting = false
under_way _ = true

abbrev pub IsUnderWay : BookClubCycle → Type 0
IsUnderWay c = under_way c.status ≡ true

All-find :
    (k : ℕ) (cs : List BookClubCycle) (c : BookClubCycle)
    → All IsUnderWay cs
    → cycle_by_id k cs ≡ some c
    → IsUnderWay c
All-find k [] c h f = cc
All-find k (x ∷ cs) c h f = ground (arith, All-find k cs c h.1)

All-insert :
    (cs : List BookClubCycle) (c : BookClubCycle)
    → All IsUnderWay cs
    → IsUnderWay c
    → All IsUnderWay (Table.insert c cs)
All-insert [] c h hc = (hc, tt)
All-insert (x ∷ cs) c h hc = (h.0, All-insert cs c h.1 hc)

All-update :
    (k : ℕ) (cs : List BookClubCycle) (new : BookClubCycle)
    → All IsUnderWay cs
    → IsUnderWay new
    → All IsUnderWay (Table.update_where (λ (x : BookClubCycle). x.id == k) (λ x. assign x new) cs)
All-update k [] new h hn = tt
All-update k (x ∷ cs) new h hn = ground (arith, All-update k cs new h.1 hn)

Move-under_way : {a b : BookClubCycleStatus} → Move a b → under_way a ≡ true → under_way b ≡ true
Move-under_way open_voting h = cc
Move-under_way choose h = refl
Move-under_way close_voting h = refl
Move-under_way discuss h = refl
Move-under_way archive h = refl
Move-under_way undo_discuss h = refl
Move-under_way reopen h = refl

CyclesStep-IsUnderWay :
    (cs cs' : List BookClubCycle) → CyclesStep cs cs' → All IsUnderWay cs → All IsUnderWay cs'
CyclesStep-IsUnderWay cs cs' (inl same) h = rw same h
CyclesStep-IsUnderWay cs cs' (inr (inl (c, new, e))) h = rw e (All-insert cs c h (rw new refl))
CyclesStep-IsUnderWay cs cs' (inr (inr (k, c, target, found, move, e))) h = rw e (
    All-update k cs (record c { status = target }) h
      (Move-under_way move (All-find k cs c h found)))

-- After any calls that create, move, vote on, propose or promote, in any libraries, whether they
-- return or raise, no cycle is in the proposing or the voting status, if none was at the start.
pub Reach-IsUnderWay :
    {strip : String → String} {s t : Club}
    → All IsUnderWay s.cycles
    → Reach strip s t
    → All IsUnderWay t.cycles
Reach-IsUnderWay h here = h
Reach-IsUnderWay {strip = strip} h (next {t = t} {u = u} r call) =
    CyclesStep-IsUnderWay t.cycles u.cycles (Call-CyclesStep strip call) (Reach-IsUnderWay h r)

-- ===== src/Club/Proposals/Promotion.antt =====
-- A promotion empties the pool of proposals.
use jinbocho_catalog_v.Base.{
  ℕ, String, ◌≡◌, inl, inr, Bool, some, List, [], ◌∷◌, arith, ◌==◌, any, count_if, if◌then◌else◌,
  Bool-cases, Option-cases, ap,
}
use jinbocho_catalog_v.Base.Table.{select, delete_where, insert}
use jinbocho_catalog_v.Exec.{ok}
use jinbocho_catalog_v.Club.State.{reading, BookClubCycle, BookClubProposal, BookClubVote, Club}
use jinbocho_catalog_v.Club.Proposals.{proposal_by_id, is_orphan, promote_proposal}
use jinbocho_catalog_v.Club.Proposals.Votes.{votes_for}

abbrev pub is_of : ℕ → BookClubProposal → Bool
is_of lib p = p.library_id == lib

-- Some proposal of the library has the id.
abbrev pub proposed_in : ℕ → ℕ → List BookClubProposal → Bool
proposed_in lib k proposals =
    any (λ (p : BookClubProposal). p.id == k) (select (is_of lib) proposals)

count_if-cleared :
    (lib j : ℕ) (proposals : List BookClubProposal)
    → count_if (is_of j) (delete_where (is_of lib) proposals)
      ≡ (if j == lib then 0 else count_if (is_of j) proposals)
count_if-cleared lib j [] = ground arith
count_if-cleared lib j (p ∷ proposals) = ground (arith, count_if-cleared lib j proposals)

count_if-orphans :
    (ps : List BookClubProposal) (k : ℕ) (votes : List BookClubVote)
    → count_if (votes_for k) (delete_where (is_orphan ps) votes)
      ≡ (if any (λ (p : BookClubProposal). p.id == k) ps then 0 else count_if (votes_for k) votes)
count_if-orphans ps k [] = ground arith
count_if-orphans ps k (v ∷ votes) = elim (Bool-cases (v.proposal_id == k)) [
  | inl e ↦
      let same : v.proposal_id ≡ k = ground arith in
      ground (
        arith,
        count_if-orphans ps k votes,
        ap (λ (i : ℕ). any (λ (p : BookClubProposal). p.id == i) ps) same,
      )
  | inr e ↦ ground (arith, count_if-orphans ps k votes)
]

module _ (strip : String → String) (k lib user new_id now : ℕ) (s : Club) where
  -- A promotion that returns opens a cycle that is being read, for the record of the proposal, and
  -- empties the pool of the library, with the votes for its proposals; every other library keeps the
  -- number of its proposals, and every other proposal its votes.
  pub promote_proposal-clears :
      {c : BookClubCycle} (j p : ℕ)
      → (promote_proposal strip k lib user new_id now s).0 ≡ ok c
      → let s' = (promote_proposal strip k lib user new_id now s).1 in
        (s'.cycles ≡ insert c s.cycles)
        × (c.status ≡ reading)
        × ((chosen : BookClubProposal) × (proposal_by_id k s.proposals ≡ some chosen)
            × (chosen.library_id ≡ lib)
            × (c.bibliographic_record_id ≡ chosen.bibliographic_record_id))
        × (count_if (is_of j) s'.proposals
            ≡ (if j == lib then 0 else count_if (is_of j) s.proposals))
        × (count_if (votes_for p) s'.votes
            ≡ (if proposed_in lib p s.proposals then 0 else count_if (votes_for p) s.votes))
  unfolding promote_proposal
  promote_proposal-clears {c = c} j p h = elim (Option-cases (proposal_by_id k s.proposals)) [
    | inl gone ↦ absurd (ground arith)
    | inr (q, found) ↦ (
      ground arith,
      ground arith,
      (q, found, ground arith, ground arith),
      ground (arith, count_if-cleared lib j s.proposals),
      ground (arith, count_if-orphans (select (is_of lib) s.proposals) p s.votes),
    )
  ]

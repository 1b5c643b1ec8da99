-- ===== src/Club/Proposals/Votes.antt =====
-- Votes: one for a member and a proposal, counted for each proposal.
use jinbocho_catalog_v.Base.{
  ℕ, ◌≡◌, refl, inl, inr, ◌≤◌, Bool, true, false, some, List, [], ◌∷◌, ◌+◌, arith, not, ◌==◌, ◌&&◌,
  ◌||◌, any, contains, map, count_if, if◌then◌else◌, Option-cases, Bool-cases, All, ap, ap₂,
}
use jinbocho_catalog_v.Base.Table.{
  find, select, IsKeyed, count_if-insert, count_if-delete_found, is_some-find,
  count_if-delete_where_le, count_if-eq-zero_of_find,
}
use jinbocho_catalog_v.Exec.{ok}
use jinbocho_catalog_v.Club.State.{BookClubProposal, BookClubVote, Club}
use jinbocho_catalog_v.Club.Proposals.{
  is_vote, Tally, tally, count_vote, ProposalWithVotes, list_proposals, toggle_vote,
}

abbrev pub votes_for : ℕ → BookClubVote → Bool
votes_for p v = v.proposal_id == p

-- The pass over the votes counts, for each proposal, its votes and whether the member's is there.
tally_lem :
    (user p : ℕ) (votes : List BookClubVote) (t : Tally)
    → ((tally user t votes).counts p ≡ t.counts p + count_if (votes_for p) votes)
      × ((tally user t votes).mine p ≡ (t.mine p || any (is_vote p user) votes))
unfolding tally
tally_lem user p [] t = (omega arith, ground arith)
tally_lem user p (v ∷ votes) t = ground (arith, tally_lem user p votes (count_vote user t v))

module _ (ids : List ℕ) (p user : ℕ) where
  abbrev among : BookClubVote → Bool
  among v = contains v.proposal_id ids

  count_if-among :
      (votes : List BookClubVote)
      → contains p ids ≡ true
      → (count_if (votes_for p) (select among votes) ≡ count_if (votes_for p) votes)
        × (any (is_vote p user) (select among votes) ≡ any (is_vote p user) votes)
  count_if-among [] h = (refl, refl)
  count_if-among (v ∷ votes) h = elim (Bool-cases (v.proposal_id == p)) [
    | inl e ↦
        let same : v.proposal_id ≡ p = ground arith in
        ground (arith, count_if-among votes h, ap (λ (i : ℕ). contains i ids) same)
    | inr e ↦ ground (arith, count_if-among votes h)
  ]

abbrev pub ids_of : List BookClubProposal → List ℕ
ids_of proposals = map (λ (p : BookClubProposal). p.id) proposals

-- A proposal with its votes, read off the table of votes.
abbrev pub with_votes : ℕ → List BookClubVote → BookClubProposal → ProposalWithVotes
with_votes user votes p = record {
  proposal = p;
  vote_count = count_if (votes_for p.id) votes;
  voted_by_me = any (is_vote p.id user) votes;
}

All-weaken :
    (a : ℕ) (ids : List ℕ) (ps : List BookClubProposal)
    → All (λ (p : BookClubProposal). contains p.id ids ≡ true) ps
    → All (λ (p : BookClubProposal). contains p.id (a ∷ ids) ≡ true) ps
All-weaken a ids [] h = tt
All-weaken a ids (p ∷ ps) h = (ground arith, All-weaken a ids ps h.1)

All-ids_of :
    (ps : List BookClubProposal)
    → All (λ (p : BookClubProposal). contains p.id (ids_of ps) ≡ true) ps
All-ids_of [] = tt
All-ids_of (p ∷ ps) = (ground arith, All-weaken p.id (ids_of ps) ps (All-ids_of ps))

abbrev listed : ℕ → List ℕ → List BookClubVote → BookClubProposal → ProposalWithVotes
listed user ids votes p =
    let t =
      tally user (record { counts = λ q. 0; mine = λ q. false })
        (select (λ (v : BookClubVote). contains v.proposal_id ids) votes) in
    record { proposal = p; vote_count = t.counts p.id; voted_by_me = t.mine p.id }

map-listed :
    (user : ℕ) (ids : List ℕ) (votes : List BookClubVote) (ps : List BookClubProposal)
    → All (λ (p : BookClubProposal). contains p.id ids ≡ true) ps
    → map (listed user ids votes) ps ≡ map (with_votes user votes) ps
map-listed user ids votes [] h = refl
map-listed user ids votes (p ∷ ps) h =
    let kept = select (λ (v : BookClubVote). contains v.proposal_id ids) votes in
    let counted = tally_lem user p.id kept (record { counts = λ q. 0; mine = λ q. false }) in
    let restricted = count_if-among ids p.id user votes h.0 in
    let same : listed user ids votes p ≡ with_votes user votes p = ground arith in
    ap₂ (λ x xs. x ∷ xs) same (map-listed user ids votes ps h.1)

-- The list of proposals, in whatever order the query sorts them, gives each proposal of the library
-- the number of its votes and whether the member's own is among them, and writes nothing.
pub list_proposals_lem :
    (sorted : List BookClubProposal → List BookClubProposal) (lib user : ℕ) (s : Club)
    → list_proposals sorted lib user s ≡ (
      ok (
          map
            (with_votes user s.votes)
            (sorted (select (λ (p : BookClubProposal). p.library_id == lib) s.proposals))),
      s,
    )
unfolding list_proposals
list_proposals_lem sorted lib user s =
    let ps = sorted (select (λ (p : BookClubProposal). p.library_id == lib) s.proposals) in
    ap (λ l. (ok l, s)) (map-listed user (ids_of ps) s.votes ps (All-ids_of ps))

-- No member has two votes for one proposal.
abbrev pub IsSingle : List BookClubVote → Type 0
IsSingle votes = (proposal user : ℕ) → count_if (is_vote proposal user) votes ≤ 1

abbrev pub one_if : Bool → ℕ
one_if b = if b then 1 else 0

-- A count goes up by `n` where a vote was set, and down by `n` where one was cleared.
abbrev pub Moves : Bool → ℕ → ℕ → ℕ → Type 0
Moves true n before after = after ≡ before + n
Moves false n before after = before ≡ after + n

find-is_vote :
    (p u : ℕ) (votes : List BookClubVote) (v : BookClubVote)
    → find (is_vote p u) votes ≡ some v
    → (v.proposal_id ≡ p) × (v.user_id ≡ u)
find-is_vote p u [] v h = cc
find-is_vote p u (x ∷ votes) v h = ground (arith, find-is_vote p u votes v)

module _ (proposal lib user new_id now : ℕ) (s : Club) where
  abbrev new_vote : BookClubVote
  new_vote = record { id = new_id; proposal_id = proposal; user_id = user; created_at = now }

  -- A toggle that returns, with distinct vote ids: every count of votes, by proposal and by proposal
  -- and member, moves by that one vote, up where the answer is true and down where it is false.
  pub toggle_vote-counts :
      {on : Bool} (p u : ℕ)
      → IsKeyed (λ (v : BookClubVote). v.id) s.votes
      → (toggle_vote proposal lib user new_id now s).0 ≡ ok on
      → let s' = (toggle_vote proposal lib user new_id now s).1 in
        Moves on
          (one_if (proposal == p))
          (count_if (votes_for p) s.votes)
          (count_if (votes_for p) s'.votes)
        × Moves on
            (one_if (proposal == p && user == u))
            (count_if (is_vote p u) s.votes)
            (count_if (is_vote p u) s'.votes)
  unfolding toggle_vote
  toggle_vote-counts p u keyed h = elim (Option-cases (find (is_vote proposal user) s.votes)) [
    | inl new ↦ ground (
      arith,
      count_if-insert (votes_for p) new_vote s.votes,
      count_if-insert (is_vote p u) new_vote s.votes,
    )
    | inr (v, old) ↦ ground (
      arith,
      find-is_vote proposal user s.votes v old,
      count_if-delete_found (λ (w : BookClubVote). w.id) (is_vote proposal user) (votes_for p)
          s.votes v keyed old,
      count_if-delete_found (λ (w : BookClubVote). w.id) (is_vote proposal user) (is_vote p u)
          s.votes v keyed old,
    )
  ]

  -- A toggle that returns answers whether the member had no vote, and so has one now.
  pub toggle_vote-answer :
      {on : Bool}
      → (toggle_vote proposal lib user new_id now s).0 ≡ ok on
      → on ≡ not (any (is_vote proposal user) s.votes)
  unfolding toggle_vote
  toggle_vote-answer h = ground (arith, is_some-find (is_vote proposal user) s.votes)

  -- A toggle, whether it returns or raises, keeps each member at one vote for a proposal at most.
  pub toggle_vote-IsSingle :
      IsSingle s.votes → IsSingle (toggle_vote proposal lib user new_id now s).1.votes
  unfolding toggle_vote
  toggle_vote-IsSingle h p u = elim (Option-cases (find (is_vote proposal user) s.votes)) [
    | inl new ↦ ground (
      arith,
      h p u,
      count_if-insert (is_vote p u) new_vote s.votes,
      count_if-eq-zero_of_find (is_vote proposal user) s.votes new,
    )
    | inr (v, old) ↦ ground (
      arith,
      h p u,
      count_if-delete_where_le (is_vote p u) (λ (w : BookClubVote). w.id == v.id) s.votes,
    )
  ]

-- ===== src/Club/Proposals.antt =====
-- app/application/use_cases/bookclub/proposals.py, with the repositories of proposals and votes.
pub mod Votes
pub mod Promotion
use jinbocho_catalog_v.Base.{
  ℕ, String, Bool, true, false, Option, none, some, List, [], ◌∷◌, ◌+◌, not, ◌==◌, ◌&&◌, any,
  contains, map, is_some, if◌then◌else◌,
}
use jinbocho_catalog_v.Base.Table
use jinbocho_catalog_v.Domain.Record.{BibliographicRecord}
use jinbocho_catalog_v.Domain.Errors.{lookup_error, permission_error, value_error}
use jinbocho_catalog_v.Exec.{Exec, pure, gets, modify, or_raise, raise_if, ◌>>=◌, ◌>>◌}
use jinbocho_catalog_v.Club.State.{reading, BookClubCycle, BookClubProposal, BookClubVote, Club}
use jinbocho_catalog_v.Club.Cycles.{find_record, add_cycle, is_blank}

abbrev pub proposal_by_id : ℕ → List BookClubProposal → Option BookClubProposal
proposal_by_id k proposals = Table.get (λ (p : BookClubProposal). p.id) k proposals

unfoldable pub find_proposal : ℕ → Exec Club (Option BookClubProposal)
find_proposal k = gets (λ s. proposal_by_id k s.proposals)

abbrev pub is_vote : ℕ → ℕ → BookClubVote → Bool
is_vote proposal user v = v.proposal_id == proposal && v.user_id == user

unfoldable pub find_by_proposal_and_user : ℕ → ℕ → Exec Club (Option BookClubVote)
find_by_proposal_and_user proposal user = gets (λ s. Table.find (is_vote proposal user) s.votes)

unfoldable pub add_vote : BookClubVote → Exec Club (Unit {0})
add_vote v = modify (λ s. record s { votes = Table.insert v s.votes })

unfoldable pub delete_vote : BookClubVote → Exec Club (Unit {0})
delete_vote v =
    modify (λ s. record s { votes = Table.delete (λ (w : BookClubVote). w.id) v.id s.votes })

-- The votes of a deleted proposal go with it: their foreign key cascades.
abbrev pub is_orphan : List BookClubProposal → BookClubVote → Bool
is_orphan proposals v = any (λ (p : BookClubProposal). p.id == v.proposal_id) proposals

unfoldable pub delete_all_by_library : ℕ → Exec Club (Unit {0})
delete_all_by_library library_id = modify (λ s. record s {
  proposals = Table.delete_where (λ (p : BookClubProposal). p.library_id == library_id) s.proposals;
  votes =
      Table.delete_where
        (is_orphan
          (Table.select (λ (p : BookClubProposal). p.library_id == library_id) s.proposals))
        s.votes;
})

unfoldable pub propose_book :
    (library_id proposed_by record_id : ℕ)
    → Option String
    → (new_id now : ℕ) → Exec Club BookClubProposal
unfolding find_record
propose_book library_id proposed_by record_id note new_id now = do
  found ← find_record record_id
  rec ← or_raise found lookup_error
  raise_if (not (rec.library_id == library_id)) permission_error
  let proposal : BookClubProposal = record {
    id = new_id;
    library_id = library_id;
    bibliographic_record_id = record_id;
    proposed_by = proposed_by;
    note = note;
    created_at = now;
  }
  modify (λ s. record s { proposals = Table.insert proposal s.proposals })
  pure proposal

-- `counts` and `mine`: a dict and a set, built in one pass over the votes.
pub record Tally : Type 0 where
  pub counts : ℕ → ℕ
  pub mine : ℕ → Bool

abbrev pub count_vote : ℕ → Tally → BookClubVote → Tally
count_vote user t v = record {
  counts = λ p. if p == v.proposal_id then t.counts p + 1 else t.counts p;
  mine = λ p. if v.user_id == user && p == v.proposal_id then true else t.mine p;
}

unfoldable pub tally : ℕ → Tally → List BookClubVote → Tally
tally user t [] = t
tally user t (v ∷ votes) = tally user (count_vote user t v) votes

pub record ProposalWithVotes : Type 0 where
  pub proposal : BookClubProposal
  pub vote_count : ℕ
  pub voted_by_me : Bool

-- `list_by_library` sorts by date; `sorted` is that order.
unfoldable pub list_proposals :
    (sorted : List BookClubProposal → List BookClubProposal) (library_id user_id : ℕ)
    → Exec Club (List ProposalWithVotes)
unfolding tally
list_proposals sorted library_id user_id = do
  proposals ← gets (λ s.
      sorted (Table.select (λ (p : BookClubProposal). p.library_id == library_id) s.proposals))
  votes ← gets (λ s.
      Table.select
        (λ (v : BookClubVote).
          contains v.proposal_id (map (λ (p : BookClubProposal). p.id) proposals))
        s.votes)
  let t = tally user_id (record { counts = λ p. 0; mine = λ p. false }) votes
  pure (
      map
        (λ (p : BookClubProposal). record {
          proposal = p;
          vote_count = t.counts p.id;
          voted_by_me = t.mine p.id;
        })
        proposals)

-- The answer to a vote that is there, or that is not.
unfoldable pub toggle_found : ℕ → ℕ → ℕ → ℕ → Option BookClubVote → Exec Club Bool
unfolding add_vote delete_vote
toggle_found proposal_id user_id new_id now (some existing) = do delete_vote existing; pure false
toggle_found proposal_id user_id new_id now none = do
  add_vote (record { id = new_id; proposal_id = proposal_id; user_id = user_id; created_at = now })
  pure true

unfoldable pub toggle_vote : (proposal_id library_id user_id new_id now : ℕ) → Exec Club Bool
unfolding find_proposal find_by_proposal_and_user toggle_found
toggle_vote proposal_id library_id user_id new_id now = do
  found ← find_proposal proposal_id
  proposal ← or_raise found lookup_error
  raise_if (not (proposal.library_id == library_id)) permission_error
  existing ← find_by_proposal_and_user proposal_id user_id
  toggle_found proposal_id user_id new_id now existing

unfoldable pub promote_proposal :
    (strip : String → String) (proposal_id library_id created_by new_id now : ℕ)
    → Exec Club BookClubCycle
unfolding find_proposal find_record add_cycle delete_all_by_library
promote_proposal strip proposal_id library_id created_by new_id now = do
  found ← find_proposal proposal_id
  proposal ← or_raise found lookup_error
  raise_if (not (proposal.library_id == library_id)) permission_error
  source ← find_record proposal.bibliographic_record_id
  rec ← or_raise source lookup_error
  raise_if (is_blank strip rec.title) value_error
  cycle ← add_cycle (record {
    id = new_id;
    library_id = library_id;
    bibliographic_record_id = proposal.bibliographic_record_id;
    title = rec.title;
    created_by = created_by;
    owned_book_id = none;
    status = reading;
    reading_start = none;
    reading_end = none;
    created_at = now;
  })
  delete_all_by_library library_id
  pure cycle

-- ===== src/Examples/BookClub.antt =====
-- A book club: two proposals, a vote, and a cycle that is being read.
use jinbocho_catalog_v.Base.{
  ℕ, String, ◌≡◌, refl, arith, true, none, [], ◌∷◌, All, map, count_if, ◌==◌,
}
use jinbocho_catalog_v.Base.Table.{select}
use jinbocho_catalog_v.Exec.{ok}
use jinbocho_catalog_v.Club.State.{reading, discussing, BookClubCycle, BookClubProposal, Club}
use jinbocho_catalog_v.Club.Cycles.{advance_cycle_status, archive_cycle}
use jinbocho_catalog_v.Club.Proposals.{is_vote, list_proposals, toggle_found, toggle_vote}
use jinbocho_catalog_v.Club.Proposals.Votes.{
  IsSingle, Moves, votes_for, with_votes, list_proposals_lem, toggle_vote-counts,
}
use jinbocho_catalog_v.Club.Life.{Reach, here, next}
use jinbocho_catalog_v.Club.Life as Life
use jinbocho_catalog_v.Club.Life.UnderWay.{IsUnderWay, Reach-IsUnderWay}
use jinbocho_catalog_v.Club.Life.Archived.{Passed, Reach-archived}
use jinbocho_catalog_v.Examples.{bibliographic_record}

abbrev pub cycle : BookClubCycle
cycle = record {
  id = 1;
  library_id = 1;
  bibliographic_record_id = 110;
  title = "Dune";
  created_by = 5;
  owned_book_id = none;
  status = reading;
  reading_start = none;
  reading_end = none;
  created_at = 1;
}

abbrev pub proposal : ℕ → BookClubProposal
proposal id = record {
  id = id;
  library_id = 1;
  bibliographic_record_id = 110;
  proposed_by = 5;
  note = none;
  created_at = 1;
}

abbrev pub club : Club
club = record {
  records = bibliographic_record 110 1 ∷ [];
  books = [];
  cycles = cycle ∷ [];
  proposals = proposal 1 ∷ proposal 2 ∷ [];
  votes = (record { id = 1; proposal_id = 1; user_id = 5; created_at = 2 }) ∷ [];
  posts = [];
}

-- Titles are taken as they are.
abbrev pub unchanged : String → String
unchanged title = title

abbrev pub discussed : Club
discussed = (advance_cycle_status 1 1 discussing club).1

abbrev closed : Club
closed = (archive_cycle 1 1 discussed).1

-- The cycle is discussed and then archived.
to_archive : Reach unchanged club closed
to_archive = next (next here (Life.advance 1 1 discussing club)) (Life.close 1 1 discussed)

Reach-IsUnderWay_example : All IsUnderWay closed.cycles
Reach-IsUnderWay_example = Reach-IsUnderWay (refl, tt) to_archive

Reach-archived_example : Passed to_archive 1 discussing
unfolding advance_cycle_status archive_cycle
Reach-archived_example = Reach-archived to_archive 1 (λ e. cc) refl

list_proposals_lem_example : list_proposals (λ ps. ps) 1 6 club ≡ (
  ok (
      map
        (with_votes 6 club.votes)
        (select (λ (p : BookClubProposal). p.library_id == 1) club.proposals)),
  club,
)
list_proposals_lem_example = list_proposals_lem (λ ps. ps) 1 6 club

votes-IsSingle : IsSingle club.votes
votes-IsSingle = λ proposal user. ground arith

toggle_vote-counts_example :
    let s' = (toggle_vote 2 1 6 2 9 club).1 in
    Moves true 1 (count_if (votes_for 2) club.votes) (count_if (votes_for 2) s'.votes)
    × Moves true 1 (count_if (is_vote 2 6) club.votes) (count_if (is_vote 2 6) s'.votes)
unfolding toggle_vote toggle_found
toggle_vote-counts_example = toggle_vote-counts 2 1 6 2 9 club 2 6 (refl, tt) refl

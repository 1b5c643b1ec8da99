-- ===== src/Examples/Discussions.antt =====
-- The pool of proposals that a promotion empties, and the discussion of the sample cycle.
use jinbocho_catalog_v.Base.{◌≡◌, refl, none, some, [], ◌∷◌, ◌==◌, false, count_if, if◌then◌else◌}
use jinbocho_catalog_v.Base.Table.{insert}
use jinbocho_catalog_v.Club.State.{reading, BookClubCycle, BookClubPost, BookClubProposal, Club}
use jinbocho_catalog_v.Club.Proposals.{proposal_by_id, promote_proposal}
use jinbocho_catalog_v.Club.Proposals.Votes.{votes_for}
use jinbocho_catalog_v.Club.Proposals.Promotion.{is_of, proposed_in, promote_proposal-clears}
use jinbocho_catalog_v.Club.Posts.{AddPostInput, add_post, delete_post}
use jinbocho_catalog_v.Club.Posts.Threads.{IsThreaded, add_post-open, Discussion-IsThreaded}
use jinbocho_catalog_v.Club.Posts.Threads
use jinbocho_catalog_v.Examples.BookClub.{club, cycle, discussed, unchanged}

abbrev promoted : Club
promoted = (promote_proposal unchanged 1 1 5 2 9 club).1

abbrev chosen_cycle : BookClubCycle
chosen_cycle = record cycle { id = 2; created_at = 9 }

promote_proposal-clears_example :
    (promoted.cycles ≡ insert chosen_cycle club.cycles)
    × (reading ≡ reading)
    × ((chosen : BookClubProposal) × (proposal_by_id 1 club.proposals ≡ some chosen)
        × (chosen.library_id ≡ 1)
        × (110 ≡ chosen.bibliographic_record_id))
    × (count_if (is_of 1) promoted.proposals
        ≡ (if 1 == 1 then 0 else count_if (is_of 1) club.proposals))
    × (count_if (votes_for 1) promoted.votes
        ≡ (if proposed_in 1 1 club.proposals then 0 else count_if (votes_for 1) club.votes))
unfolding promote_proposal
promote_proposal-clears_example =
    promote_proposal-clears unchanged 1 1 5 2 9 club {c = chosen_cycle} 1 1 refl

abbrev post : BookClubPost
post = record {
  id = 1;
  cycle_id = 1;
  user_id = 5;
  body = "The worms!";
  parent_post_id = none;
  is_spoiler = false;
  created_at = 8;
}

abbrev talking : Club
talking = record discussed { posts = post ∷ [] }

abbrev answer : AddPostInput
answer = record {
  cycle_id = 1;
  library_id = 1;
  user_id = 6;
  body = "Not so large.";
  parent_post_id = some 1;
  is_spoiler = false;
}

-- The answer goes with the post that it answers.
Discussion-IsThreaded_example :
    IsThreaded (delete_post 1 1 5 false (add_post unchanged answer 2 9 talking).1).1.posts
Discussion-IsThreaded_example =
    Discussion-IsThreaded {strip = unchanged} (refl, tt)
      (Threads.next (Threads.next Threads.start (Threads.add answer 2 9 talking))
        (Threads.remove 1 1 5 false (add_post unchanged answer 2 9 talking).1))

-- ===== src/Club/State.antt =====
-- The entities of the book club (app/domain/entities/book_club_*.py) and the tables that its use
-- cases read and write. The calls of `strip()` are a parameter where a title is checked.
use jinbocho_catalog_v.Base.{ℕ, String, Bool, true, false, Option, List}
use jinbocho_catalog_v.Domain.Book.{OwnedBook}
use jinbocho_catalog_v.Domain.Record.{BibliographicRecord}

pub data BookClubCycleStatus : Type 0 where
  proposing voting reading discussing archived : BookClubCycleStatus

pub record BookClubCycle : Type 0 where
  pub id : ℕ
  pub library_id : ℕ
  pub bibliographic_record_id : ℕ
  pub title : String
  pub created_by : ℕ
  pub owned_book_id : Option ℕ
  pub status : BookClubCycleStatus
  pub reading_start : Option ℕ
  pub reading_end : Option ℕ
  pub created_at : ℕ

-- `_ALLOWED_TRANSITIONS`, as a test
abbrev pub is_allowed : BookClubCycleStatus → BookClubCycleStatus → Bool
is_allowed proposing voting = true
is_allowed proposing reading = true
is_allowed voting reading = true
is_allowed reading discussing = true
is_allowed discussing archived = true
is_allowed discussing reading = true
is_allowed archived discussing = true
is_allowed _ _ = false

abbrev pub can_transition_to : BookClubCycle → BookClubCycleStatus → Bool
can_transition_to cycle target = is_allowed cycle.status target

pub record BookClubProposal : Type 0 where
  pub id : ℕ
  pub library_id : ℕ
  pub bibliographic_record_id : ℕ
  pub proposed_by : ℕ
  pub note : Option String
  pub created_at : ℕ

pub record BookClubVote : Type 0 where
  pub id : ℕ
  pub proposal_id : ℕ
  pub user_id : ℕ
  pub created_at : ℕ

pub record BookClubPost : Type 0 where
  pub id : ℕ
  pub cycle_id : ℕ
  pub user_id : ℕ
  pub body : String
  pub parent_post_id : Option ℕ
  pub is_spoiler : Bool
  pub created_at : ℕ

pub record Club : Type 0 where
  pub records : List BibliographicRecord
  pub books : List OwnedBook
  pub cycles : List BookClubCycle
  pub proposals : List BookClubProposal
  pub votes : List BookClubVote
  pub posts : List BookClubPost

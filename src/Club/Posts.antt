-- ===== src/Club/Posts.antt =====
-- app/application/use_cases/bookclub/posts.py, with book_club_post_repository.py: the discussion of a
-- cycle.
pub mod Threads
use jinbocho_catalog_v.Base.{
  ℕ, zero, suc, String, Bool, true, false, Option, none, some, List, not, ◌==◌, ◌&&◌, ◌||◌, any,
  length,
}
use jinbocho_catalog_v.Base.Table
use jinbocho_catalog_v.Domain.Errors.{lookup_error, permission_error, value_error}
use jinbocho_catalog_v.Exec.{Exec, pure, gets, modify, or_raise, raise_if, ◌>>=◌, ◌>>◌}
use jinbocho_catalog_v.Club.State.{
  BookClubCycleStatus, proposing, voting, reading, discussing, archived, BookClubCycle,
  BookClubPost, Club,
}
use jinbocho_catalog_v.Club.Cycles.{find_cycle, get_cycle, is_blank}

abbrev pub post_by_id : ℕ → List BookClubPost → Option BookClubPost
post_by_id k posts = Table.get (λ (p : BookClubPost). p.id) k posts

unfoldable pub find_post : ℕ → Exec Club (Option BookClubPost)
find_post k = gets (λ s. post_by_id k s.posts)

-- `cycle.status is BookClubCycleStatus.DISCUSSING`
abbrev pub is_open : BookClubCycleStatus → Bool
is_open discussing = true
is_open _ = false

pub record AddPostInput : Type 0 where
  pub cycle_id : ℕ
  pub library_id : ℕ
  pub user_id : ℕ
  pub body : String
  pub parent_post_id : Option ℕ
  pub is_spoiler : Bool

-- The check of the parent, where one is given.
unfoldable pub check_parent : ℕ → Option ℕ → Exec Club (Unit {0})
unfolding find_post
check_parent cycle_id none = pure tt
check_parent cycle_id (some post_id) = do
  found ← find_post post_id
  parent ← or_raise found lookup_error
  raise_if (not (parent.cycle_id == cycle_id)) value_error

unfoldable pub add_post :
    (strip : String → String) → AddPostInput → (new_id now : ℕ) → Exec Club BookClubPost
unfolding get_cycle check_parent
add_post strip inp new_id now = do
  cycle ← get_cycle inp.cycle_id inp.library_id
  raise_if (not (is_open cycle.status)) permission_error
  check_parent inp.cycle_id inp.parent_post_id
  raise_if (is_blank strip inp.body) value_error
  let post : BookClubPost = record {
    id = new_id;
    cycle_id = inp.cycle_id;
    user_id = inp.user_id;
    body = inp.body;
    parent_post_id = inp.parent_post_id;
    is_spoiler = inp.is_spoiler;
    created_at = now;
  }
  modify (λ s. record s { posts = Table.insert post s.posts })
  pure post

abbrev pub has_parent : List BookClubPost → Option ℕ → Bool
has_parent posts none = true
has_parent posts (some k) = any (λ (q : BookClubPost). q.id == k) posts

-- The foreign key of the parent cascades: replies to a post that is gone go too, round by round. As
-- many rounds as posts are enough.
unfoldable pub cascade : ℕ → List BookClubPost → List BookClubPost
cascade zero posts = posts
cascade (suc rounds) posts =
    cascade rounds (Table.select (λ (p : BookClubPost). has_parent posts p.parent_post_id) posts)

unfoldable pub delete_thread : ℕ → List BookClubPost → List BookClubPost
unfolding cascade
delete_thread k posts =
    let rest = Table.delete (λ (p : BookClubPost). p.id) k posts in cascade (length rest) rest

-- `cycle is None or cycle.library_id != library_id`
abbrev pub is_foreign : ℕ → Option BookClubCycle → Bool
is_foreign library_id none = true
is_foreign library_id (some cycle) = not (cycle.library_id == library_id)

unfoldable pub delete_post :
    (post_id library_id user_id : ℕ) → (is_admin : Bool) → Exec Club (Unit {0})
unfolding find_post find_cycle
delete_post post_id library_id user_id is_admin = do
  found ← find_post post_id
  post ← or_raise found lookup_error
  cycle ← find_cycle post.cycle_id
  raise_if (is_foreign library_id cycle) permission_error
  raise_if (not (post.user_id == user_id) && not is_admin) permission_error
  modify (λ s. record s { posts = delete_thread post.id s.posts })

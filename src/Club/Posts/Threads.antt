-- ===== src/Club/Posts/Threads.antt =====
-- The threads of a discussion: no reply outlives the post that it answers.
use jinbocho_catalog_v.Base.{
  ℕ, zero, suc, String, ◌≡◌, refl, ◌⊎◌, inl, inr, ◌≤◌, ◌<◌, Bool, true, Option, none, some, List,
  [], ◌∷◌, arith, ◌==◌, any, length, All, Option-cases, Bool-cases,
}
use jinbocho_catalog_v.Base.Table.{select, insert, delete}
use jinbocho_catalog_v.Exec.{ok, err, Result-cases}
use jinbocho_catalog_v.Club.State.{
  BookClubCycleStatus, proposing, voting, reading, discussing, archived, BookClubCycle,
  BookClubPost, Club,
}
use jinbocho_catalog_v.Domain.Errors.{Error}
use jinbocho_catalog_v.Club.Cycles.{cycle_by_id}
use jinbocho_catalog_v.Club.Posts.{
  post_by_id, AddPostInput, is_open, add_post, has_parent, cascade, delete_thread, delete_post,
}

-- A post whose parent, if it has one, is among the posts.
abbrev pub Answers : List BookClubPost → BookClubPost → Type 0
Answers posts p = has_parent posts p.parent_post_id ≡ true

abbrev pub IsThreaded : List BookClubPost → Type 0
IsThreaded posts = All (Answers posts) posts

-- A selection keeps everything, or is shorter.
select-shrinks :
    (p : BookClubPost → Bool) (posts : List BookClubPost)
    → ((select p posts ≡ posts) × All (λ x. p x ≡ true) posts)
      ⊎ (length (select p posts) < length posts)
select-shrinks p [] = inl (refl, tt)
select-shrinks p (x ∷ posts) = elim (select-shrinks p posts) [
  | inl (same, all) ↦ elim (Bool-cases (p x)) [
    | inl kept ↦ inl (ground (arith, same), (kept, all))
    | inr gone ↦ inr (ground (arith, same))
  ]
  | inr less ↦ inr (ground arith)
]

cascade-stable :
    (n : ℕ) (posts : List BookClubPost)
    → select (λ (p : BookClubPost). has_parent posts p.parent_post_id) posts ≡ posts
    → cascade n posts ≡ posts
unfolding cascade
cascade-stable zero posts h = refl
cascade-stable (suc n) posts h = rw h (cascade-stable n posts h)

-- As many rounds as posts leave no reply without its parent.
cascade-IsThreaded :
    (n : ℕ) (posts : List BookClubPost) → length posts ≤ n → IsThreaded (cascade n posts)
unfolding cascade
cascade-IsThreaded zero [] h = tt
cascade-IsThreaded zero (x ∷ posts) h = absurd (omega arith)
cascade-IsThreaded (suc n) posts h =
    let p : BookClubPost → Bool = λ x. has_parent posts x.parent_post_id in
    elim (select-shrinks p posts) [
      | inl (same, all) ↦ rw same (rw (cascade-stable n posts same) all)
      | inr less ↦ cascade-IsThreaded n (select p posts) (omega arith)
    ]

has_parent-insert :
    (new : BookClubPost) (parent : Option ℕ) (posts : List BookClubPost)
    → has_parent posts parent ≡ true
    → has_parent (insert new posts) parent ≡ true
has_parent-insert new none posts h = refl
has_parent-insert new (some k) posts h = any-insert posts h
  where
    any-insert :
        (rows : List BookClubPost)
        → any (λ (q : BookClubPost). q.id == k) rows ≡ true
        → any (λ (q : BookClubPost). q.id == k) (insert new rows) ≡ true
    any-insert [] h = cc
    any-insert (x ∷ rows) h = ground (arith, any-insert rows)

All-insert :
    (new : BookClubPost) (posts rows : List BookClubPost)
    → All (Answers posts) rows
    → Answers posts new
    → All (Answers (insert new posts)) (insert new rows)
All-insert new posts [] h e = (has_parent-insert new new.parent_post_id posts e, tt)
All-insert new posts (x ∷ rows) h e =
    (has_parent-insert new x.parent_post_id posts h.0, All-insert new posts rows h.1 e)

parent-found :
    (k : ℕ) (posts : List BookClubPost) (p : BookClubPost)
    → post_by_id k posts ≡ some p
    → has_parent posts (some k) ≡ true
parent-found k [] p h = cc
parent-found k (x ∷ posts) p h = ground (arith, parent-found k posts p)

is_open-discussing : (status : BookClubCycleStatus) → is_open status ≡ true → status ≡ discussing
is_open-discussing proposing h = cc
is_open-discussing voting h = cc
is_open-discussing reading h = cc
is_open-discussing discussing h = refl
is_open-discussing archived h = cc

module _ (strip : String → String) (inp : AddPostInput) (new_id now : ℕ) (s : Club) where
  -- A post that is added is of a cycle of the caller's library that is being discussed, and answers,
  -- if anything, a post of that cycle; it is written under the caller's name, after the others.
  pub add_post-open :
      {post : BookClubPost}
      → (add_post strip inp new_id now s).0 ≡ ok post
      → ((c : BookClubCycle) × (cycle_by_id inp.cycle_id s.cycles ≡ some c)
          × (c.library_id ≡ inp.library_id)
          × (c.status ≡ discussing))
        × ((inp.parent_post_id ≡ none)
            ⊎ ((k : ℕ) × (parent : BookClubPost) × (inp.parent_post_id ≡ some k)
                × (post_by_id k s.posts ≡ some parent)
                × (parent.cycle_id ≡ inp.cycle_id)))
        × (post.user_id ≡ inp.user_id)
        × (post.parent_post_id ≡ inp.parent_post_id)
        × ((add_post strip inp new_id now s).1.posts ≡ insert post s.posts)
  unfolding add_post
  add_post-open h = (cycle h, parent h, ground arith, ground arith, ground arith)
    where
      cycle :
          {post : BookClubPost}
          → (add_post strip inp new_id now s).0 ≡ ok post
          → (c : BookClubCycle) × (cycle_by_id inp.cycle_id s.cycles ≡ some c)
            × (c.library_id ≡ inp.library_id)
            × (c.status ≡ discussing)
      cycle h = elim (Option-cases (cycle_by_id inp.cycle_id s.cycles)) [
        | inl gone ↦ absurd (ground arith)
        | inr (c, found) ↦ (c, found, ground arith, is_open-discussing c.status (ground arith))
      ]

      parent :
          {post : BookClubPost}
          → (add_post strip inp new_id now s).0 ≡ ok post
          → (inp.parent_post_id ≡ none)
            ⊎ ((k : ℕ) × (parent : BookClubPost) × (inp.parent_post_id ≡ some k)
                × (post_by_id k s.posts ≡ some parent)
                × (parent.cycle_id ≡ inp.cycle_id))
      parent h = elim (Option-cases inp.parent_post_id) [
        | inl top ↦ inl top
        | inr (k, reply) ↦ elim (Option-cases (post_by_id k s.posts)) [
          | inl gone ↦ absurd (ground arith)
          | inr (q, found) ↦ inr (k, q, reply, found, ground arith)
        ]
      ]

  pub add_post-IsThreaded :
      IsThreaded s.posts → IsThreaded (add_post strip inp new_id now s).1.posts
  unfolding add_post
  add_post-IsThreaded threaded = elim (Result-cases (add_post strip inp new_id now s).0) [
    | inr (e, out) ↦ refused e out
    | inl (post, out) ↦
        let (cycle, parent, by, to, after) = add_post-open out in
        rw after (
          All-insert post s.posts s.posts threaded (elim parent [
            | inl top ↦ rw (to, top) refl
            | inr (k, q, reply, found, of) ↦ rw (to, reply) (parent-found k s.posts q found)
          ]))
  ]
    where
      refused :
          (e : Error)
          → (add_post strip inp new_id now s).0 ≡ err e
          → IsThreaded (add_post strip inp new_id now s).1.posts
      refused e out =
          let same : (add_post strip inp new_id now s).1 ≡ s = ground arith in rw same threaded

module _ (post_id lib user : ℕ) (is_admin : Bool) (s : Club) where
  delete_post-posts :
      ((delete_post post_id lib user is_admin s).1.posts ≡ s.posts)
      ⊎ ((p : BookClubPost) × (post_by_id post_id s.posts ≡ some p)
          × ((p.user_id ≡ user) ⊎ (is_admin ≡ true))
          × ((delete_post post_id lib user is_admin s).1.posts ≡ delete_thread p.id s.posts))
  unfolding delete_post
  delete_post-posts = elim (Result-cases (delete_post post_id lib user is_admin s).0) [
    | inr (e, out) ↦ inl (ground arith)
    | inl (x, out) ↦ elim (Option-cases (post_by_id post_id s.posts)) [
      | inl gone ↦ inl (ground arith)
      | inr (p, found) ↦ inr (p, found, ground arith, ground arith)
    ]
  ]

  pub delete_post-IsThreaded :
      IsThreaded s.posts → IsThreaded (delete_post post_id lib user is_admin s).1.posts
  unfolding delete_thread
  delete_post-IsThreaded threaded = elim delete_post-posts [
    | inl same ↦ rw same threaded
    | inr (p, found, may, after) ↦ rw after (
        cascade-IsThreaded (length (delete (λ (q : BookClubPost). q.id) p.id s.posts))
          (delete (λ (q : BookClubPost). q.id) p.id s.posts) (omega arith))
  ]

-- A call that adds or deletes a post, with any arguments; it may return or raise.
pub data Talk (strip : String → String) : Club → Club → Type 0 where
  add :
      (inp : AddPostInput) (new_id now : ℕ) (s : Club)
      → Talk strip s (add_post strip inp new_id now s).1
  remove :
      (post_id lib user : ℕ) (is_admin : Bool) (s : Club)
      → Talk strip s (delete_post post_id lib user is_admin s).1

pub data Discussion (strip : String → String) (s : Club) : Club → Type 0 where
  start : Discussion strip s s
  next : {t u : Club} → Discussion strip s t → Talk strip t u → Discussion strip s u

Talk-IsThreaded :
    {strip : String → String} {s t : Club}
    → Talk strip s t
    → IsThreaded s.posts
    → IsThreaded t.posts
Talk-IsThreaded {strip = strip} (add inp new_id now s) h =
    add_post-IsThreaded strip inp new_id now s h
Talk-IsThreaded (remove post_id lib user is_admin s) h =
    delete_post-IsThreaded post_id lib user is_admin s h

-- After any calls that add or delete posts, whether they return or raise, every reply's parent is
-- there, if that was so at the start: deleting a post takes the whole thread below it.
pub Discussion-IsThreaded :
    {strip : String → String} {s t : Club}
    → IsThreaded s.posts
    → Discussion strip s t
    → IsThreaded t.posts
Discussion-IsThreaded h start = h
Discussion-IsThreaded h (next calls call) = Talk-IsThreaded call (Discussion-IsThreaded h calls)

-- ===== src/Club.antt =====
-- The book club: reading cycles, proposals with their votes, and posts.
pub mod State
pub mod Cycles
pub mod Proposals
pub mod Posts
pub mod Life

-- ===== src/Kids.antt =====
-- The kids mode: quizzes, reading sessions, family challenges and mystery picks.
pub mod State
pub mod Quiz
pub mod Sessions
pub mod Challenges
pub mod Picks

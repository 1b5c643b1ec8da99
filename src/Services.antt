-- ===== src/Services.antt =====
-- The services of app/application/services.
pub mod AgeBand
pub mod Pagination
pub mod QuizScoring

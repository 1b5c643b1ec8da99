-- ===== src/Domain.antt =====
-- The entities of app/domain/entities and the errors that the use cases raise. A UUID is a number,
-- since the program only compares them; a datetime is a number of seconds and a date a number of
-- days; a price is in hundredths. Rows of history, reads and abandonments are identified by their
-- natural key, so their random ids are left out.
pub mod Book
pub mod Record
pub mod Activity
pub mod Quiz
pub mod Errors

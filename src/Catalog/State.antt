-- ===== src/Catalog/State.antt =====
-- The rows of the tables that the catalog's use cases read and write, in one session.
use jinbocho_catalog_v.Base.{List}
use jinbocho_catalog_v.Domain.Book.{OwnedBook, BookHistory}
use jinbocho_catalog_v.Domain.Record.{BibliographicRecord}
use jinbocho_catalog_v.Domain.Activity.{BookRead, BookAbandonment, BookLoan, BookRating}

pub record Catalog : Type 0 where
  pub books : List OwnedBook
  pub records : List BibliographicRecord
  pub reads : List BookRead
  pub abandonments : List BookAbandonment
  pub history : List BookHistory
  pub loans : List BookLoan
  pub ratings : List BookRating

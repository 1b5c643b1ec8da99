-- ===== src/Domain/Record.antt =====
-- app/domain/entities/bibliographic_record.py.
use jinbocho_catalog_v.Base.{ℕ, String, Option, List}

pub record BibliographicRecord : Type 0 where
  pub id : ℕ
  pub library_id : ℕ
  pub title : String
  pub main_author : Option String
  pub other_authors : List String
  pub isbn : Option String
  pub publisher : Option String
  pub publication_year : Option ℕ
  pub language : Option String
  pub genre : Option String
  pub genre_raw : Option String
  pub cover_url : Option String
  pub notes : Option String
  pub incipit : Option String
  pub incipit_source : Option String
  pub incipit_generated_at : Option ℕ
  pub created_at : ℕ
  pub updated_at : ℕ

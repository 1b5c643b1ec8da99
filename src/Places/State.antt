-- ===== src/Places/State.antt =====
-- app/domain/entities/room.py, bookcase.py, section.py and shelf.py, and their tables.
use jinbocho_catalog_v.Base.{ℕ, String, Option, List}

pub record Room : Type 0 where
  pub id : ℕ
  pub library_id : ℕ
  pub name : String
  pub description : Option String
  pub created_at : ℕ
  pub updated_at : ℕ

pub record Bookcase : Type 0 where
  pub id : ℕ
  pub library_id : ℕ
  pub room_id : ℕ
  pub name : String
  pub description : Option String
  pub type : Option String
  pub notes : Option String
  pub image_url : Option String
  pub created_at : ℕ
  pub updated_at : ℕ

pub record Section : Type 0 where
  pub id : ℕ
  pub bookcase_id : ℕ
  pub section_index : ℕ
  pub label : Option String
  pub created_at : ℕ
  pub updated_at : ℕ

pub record Shelf : Type 0 where
  pub id : ℕ
  pub section_id : ℕ
  pub shelf_index : ℕ
  pub notes : Option String
  pub created_at : ℕ
  pub updated_at : ℕ

pub record Places : Type 0 where
  pub rooms : List Room
  pub bookcases : List Bookcase
  pub sections : List Section
  pub shelves : List Shelf

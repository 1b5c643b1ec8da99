-- ===== src/Domain/Activity.antt =====
-- app/domain/entities: book_read.py, book_abandonment.py, book_loan.py, book_rating.py and
-- wishlist_item.py.
use jinbocho_catalog_v.Base.{ℕ, String, Option}

pub record BookRead : Type 0 where
  pub owned_book_id : ℕ
  pub user_id : ℕ
  pub read_at : ℕ

pub record BookAbandonment : Type 0 where
  pub owned_book_id : ℕ
  pub user_id : ℕ
  pub abandoned_at : ℕ

pub record BookLoan : Type 0 where
  pub id : ℕ
  pub owned_book_id : ℕ
  pub borrower_name : String
  pub borrower_user_id : Option ℕ
  pub loaned_at : ℕ
  pub due_date : Option ℕ
  pub returned_at : Option ℕ
  pub reminder_sent_at : Option ℕ

pub record BookRating : Type 0 where
  pub id : ℕ
  pub owned_book_id : ℕ
  pub user_id : ℕ
  pub rating : ℕ
  pub review : Option String
  pub created_at : ℕ
  pub updated_at : ℕ

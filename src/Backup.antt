-- ===== src/Backup.antt =====
-- app/application/use_cases/backup: import_full_library.py restores a backup into a library, with new ids and
-- without a second row for what the library has; delete_library_data.py deletes the data of a library.
pub mod Input
pub mod Session
pub mod WishlistRepo
pub mod Names
pub mod Loop
pub mod Validate
pub mod Import
pub mod Copies
pub mod Whole
pub mod Deletion

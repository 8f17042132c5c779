-- ===== src/Contacts.antt =====
-- The book of contacts, and the destinations that were dialled last.
pub mod Draft
pub mod Book
pub mod Recent
pub mod Backup
pub mod Query
mod Tests
mod BackupTests

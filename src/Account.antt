-- ===== src/Account.antt =====
-- The account of the operator, and what the native engine is given for it.
pub mod Validation
pub mod Form
pub mod Config
pub mod Tests

-- ===== src/Engine.antt =====
-- The processes that the program starts.
pub mod Quote
pub mod Tests

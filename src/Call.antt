-- ===== src/Call.antt =====
-- Commands to the native engine: what they may dial, who may give them, and their execution.
pub mod Address
pub mod Authorization
pub mod Executor
pub mod Feedback
mod Tests

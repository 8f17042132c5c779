-- ===== src/Native.antt =====
-- The controls of a native call: what the interface offers, and what the engine's gate admits.
pub mod Control
pub mod Media
pub mod Batch
pub mod Offers
pub mod Ringtone
pub mod Duration
mod Tests

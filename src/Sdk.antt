-- ===== src/Sdk.antt =====
-- The bridge to the Baresip SDK: the adapter for its events and the port for its calls.
pub mod Event
pub mod Adapter
pub mod CallPort
pub mod Joined
pub mod Tests

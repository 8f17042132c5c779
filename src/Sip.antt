-- ===== src/Sip.antt =====
-- The SIP state that the rest of the program observes: its vocabulary (Sip/Status), the engine's
-- own life cycle (Sip/Lifecycle) and the reducer of native events (Sip/Reducer, Sip/Identity).
pub mod Status
pub mod Observation
pub mod Lifecycle
pub mod Reducer
pub mod Identity
mod Tests

-- ===== src/Audio.antt =====
-- The audio devices: which one is used, when they are looked at again, and by whom.
pub mod Devices
pub mod Async
pub mod Routes
pub mod Changes
pub mod Tests

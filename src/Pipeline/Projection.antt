-- ===== src/Pipeline/Projection.antt =====
-- src/legacy_sip_event_projection.h and src/sip_event_projection.h: the UI thread's view of the
-- batches that it drains from the mailbox.
pub mod Legacy
pub mod Bound
pub mod LegacyLaws
pub mod BoundLaws

-- ===== src/Pipeline.antt =====
-- From the native callbacks to the observed state: the ingress that admits a callback
-- (Pipeline/Ingress, Pipeline/NativeIngress), the fence round it (Pipeline/Fence), the mailbox
-- between the threads (Pipeline/Mailbox) and the projection of its batches (Pipeline/Projection).
pub mod Mailbox
pub mod Projection
pub mod SessionGuard
pub mod Ingress
pub mod NativeIngress
pub mod Fence
pub mod Lifecycle
mod Tests

-- ===== src/Registration.antt =====
-- The requests that other threads make of the registration: the command queue, the deadline, the gateway
-- to the SDK and the dispatcher that serves the queue.
pub mod Command
pub mod Queue
pub mod Deadline
pub mod Bridge
pub mod Gateway
pub mod Dispatcher
mod Tests
mod DispatcherTests

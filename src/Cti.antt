-- ===== src/Cti.antt =====
-- The interface to local clients: the requests to dial, the journal of states and the texts they send.
pub mod Log
pub mod Request
pub mod Requests
pub mod Journal
pub mod Cursor
pub mod Contract
pub mod ContractTests
mod Tests
mod JournalTests

-- ===== src/Runtime.antt =====
-- crates/service/src/runtime.rs: the coordinator of the service, the only writer of its state.
pub mod State
pub mod Action
pub mod Ports
pub mod Health
pub mod Events
pub mod Commit
pub mod Candidates
pub mod Timers
pub mod Internet
pub mod Messages
pub mod Deadlines
pub mod Clock
pub mod Recovery
pub mod Commands
pub mod Quiet
pub mod Durability
pub mod Outcomes

-- ===== src/Execution/Service.antt =====
-- app/execution/service.py: the class `ExecutionService`.
pub mod State
pub mod Gates
pub mod Rules
pub mod Quiet
pub mod Parts
pub mod Steps
pub mod Others
pub mod Sent
pub mod Persisting
pub mod Checks
pub mod Cleared
pub mod Placing
pub mod Cancelling
pub mod History
pub mod Writes
pub mod Latched
pub mod Updated
pub mod Matching
pub mod Reconciled
pub mod Failing
mod Tests
pub mod Placement
pub mod Cancellation
pub mod Reconciliation

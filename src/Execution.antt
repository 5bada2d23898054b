-- ===== src/Execution.antt =====
-- app/execution.
pub mod StateMachine
pub mod Lifecycle
pub mod Error
pub mod Store
pub mod Service
mod Tests

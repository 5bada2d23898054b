-- ===== src/Safety.antt =====
-- app/safety: the fail-closed state machine of the runtime, and the last check before a write.
pub mod RuntimeState
pub mod Halting
pub mod Window
pub mod WriteFirewall
mod Tests

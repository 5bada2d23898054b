-- ===== src/Risk.antt =====
-- app/risk: the evaluation of one exact order against the limits of the configuration.
pub mod Engine
pub mod Admission
pub mod Report
pub mod Tests

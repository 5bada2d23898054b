-- ===== src/Options.antt =====
-- app/options: the arithmetic of one long option.
pub mod Calculations
mod Tests

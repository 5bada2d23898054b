-- ===== src/Positions.antt =====
-- app/positions: exits that are declared before a position is opened.
pub mod Manager
pub mod Triggers
pub mod Exits
pub mod Marks
mod Tests

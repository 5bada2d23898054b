-- ===== src/Clock.antt =====
-- app/clock.
pub mod MarketCalendar
pub mod Sessions
mod Tests

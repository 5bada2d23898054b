-- ===== src/Strategy.antt =====
-- app/strategy: how much attention a candidate gets.
pub mod Attention
mod Tests

-- ===== src/Replay.antt =====
-- app/replay: the replay engine.
pub mod Engine
mod Tests

-- ===== src/Broker/Simulated/Persisted.antt =====
-- app/broker/simulated.py: `_ensure_clean` after a snapshot that the state recorder refused.
use sentry.Broker.Ledger.State as Ledger
use sentry.Broker.Simulated.{Call}

-- Every call but `flush_state`.
abbrev pub IsNoFlush : Call → Type 0
IsNoFlush (Call.flush_call x) = ⊥
IsNoFlush _ = Unit

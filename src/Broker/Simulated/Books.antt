-- ===== src/Broker/Simulated/Books.antt =====
-- app/broker/simulated.py: the books of the broker, through any history of its calls.
use sentry.Domain.Market.{Label, Day}
use sentry.Broker.Ledger.State as Ledger
use sentry.Broker.Ledger.Invariant.Submitting.{IsWellFormed}
use sentry.Broker.Simulated.{Call}

-- A placed command is well-formed; nothing is asked of the other calls.
abbrev pub IsFormed : (Label → Day) → Call → Type 0
IsFormed expiry (Call.place_call x command contract) = IsWellFormed expiry command contract
IsFormed expiry _ = Unit

-- ===== src/Broker/Ledger.antt =====
-- app/broker/shadow_ledger.py: the class `ShadowLedger`, method by method. `State` has its fields and
-- the monad of its methods; the other modules have the methods, and the proofs about them.
pub mod State
pub mod Keeps
pub mod Holdings
pub mod Fills
pub mod Quotes
pub mod Orders
pub mod Cancel
pub mod Search
pub mod Expiry
pub mod Audit
pub mod Invariant
pub mod History
pub mod NoFault
pub mod Evolution
pub mod Retry
pub mod Replay
pub mod Admitted
pub mod Snapshot
pub mod Tests

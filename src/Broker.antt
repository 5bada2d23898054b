-- ===== src/Broker.antt =====
-- app/broker: the fill models, the deterministic ledger of the Demo backends, the capabilities of a
-- broker, and the simulated broker over the ledger.
pub mod FillModel
pub mod Ledger
pub mod Capabilities
pub mod Simulated

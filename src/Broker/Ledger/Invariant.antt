-- ===== src/Broker/Ledger/Invariant.antt =====
-- app/broker/shadow_ledger.py: what holds of a ledger between two calls.
pub mod Reserves
pub mod Filling
pub mod Apply
pub mod Observing
pub mod Submitting
pub mod Ending
pub mod Expiring
use sentry.Prelude.{ℕ, ◌≤◌, ◌<◌, ◌≡◌, true}
use sentry.Prelude.Int.{pos, ◌≤ℤ◌}
use sentry.Prelude.Dict.{AllEntries}
use sentry.Domain.Market.{Label, Day}
use sentry.Domain.Order.{Position, BrokerOrder}
use sentry.Broker.Ledger.State.{ShadowLedger, LedgerOrder, is_open}
use sentry.Broker.Ledger.Holdings.{reserved_buying_power, reserved_quantity, owned_quantity}
use sentry.Broker.Ledger.Audit.{is_filled}

-- `expiry` gives the expiration of the contract that an instrument identifier names.
module _ (expiry : Label → Day) where
  abbrev pub IsValidOrder : BrokerOrder → Type 0
  IsValidOrder o =
      (o.filled_quantity ≤ o.quantity)
      × (is_open o.state ≡ true → o.filled_quantity < o.quantity)
      × (is_filled o.state ≡ true → o.filled_quantity ≡ o.quantity)
      × (0 < o.limit_price)
      × (o.contract.expiration ≡ expiry o.contract.instrument_id)

  abbrev pub IsValidEntry : ℕ → LedgerOrder → Type 0
  IsValidEntry key item = IsValidOrder item.published

  abbrev pub IsValidPosition : Label → Position → Type 0
  IsValidPosition i p = (0 < p.quantity) × (p.contract.expiration ≡ expiry i)

  -- Cash covers the open buys, and each position the open sells of its instrument.
  pub record IsValid (l : ShadowLedger) : Type 0 where
    pub covered : pos (reserved_buying_power l.orders) ≤ℤ l.cash
    pub held : (i : Label) → reserved_quantity i l.orders ≤ owned_quantity i l.positions
    pub orders_valid : AllEntries IsValidEntry l.orders
    pub positions_valid : AllEntries IsValidPosition l.positions

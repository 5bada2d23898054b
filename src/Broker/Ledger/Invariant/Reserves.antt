-- ===== src/Broker/Ledger/Invariant/Reserves.antt =====
-- app/broker/shadow_ledger.py: what a fill, a cancellation or an expiry does to the reserves.
use sentry.Prelude.{ℕ, ◌+◌, ◌-◌, ◌*◌, ◌≤◌, ◌≡◌, true, false, arith}
use sentry.Domain.Enums.{is_buy}
use sentry.Domain.Market.{Label}
use sentry.Domain.Order.{BrokerOrder}
use sentry.Broker.Ledger.State.{is_open}
use sentry.Broker.Ledger.Holdings.{buy_reserve, sell_reserve, remaining_quantity}
use sentry.Broker.Ledger.Fills.{Request, filled_order}

split_reserve :
    (rem q limit m : ℕ) → q ≤ rem → (rem - q) * limit * m + q * limit * m ≡ rem * limit * m
split_reserve rem q limit m h = grind arith

pub notional-le : (price q limit m : ℕ) → price ≤ limit → price * q * m ≤ q * limit * m
notional-le price q limit m h = grind arith

module _ (o : BrokerOrder) (r : Request) (opened : is_open o.state ≡ true)
    (fits : r.quantity ≤ remaining_quantity o) where
  -- A fill of a buy releases what its quantity reserved.
  pub buy_reserve-filled :
      is_buy o.side ≡ true
      → buy_reserve (filled_order o r) + r.quantity * o.limit_price * o.contract.multiplier
        ≡ buy_reserve o
  unfolding buy_reserve filled_order
  buy_reserve-filled b = ground (
    arith,
    split_reserve (remaining_quantity o) r.quantity o.limit_price o.contract.multiplier fits,
  )

  pub sell_reserve-filled :
      (i : Label)
      → is_buy o.side ≡ false
      → o.contract.instrument_id ≡ i
      → sell_reserve i (filled_order o r) + r.quantity ≡ sell_reserve i o
  unfolding sell_reserve filled_order
  sell_reserve-filled i b e = ground arith

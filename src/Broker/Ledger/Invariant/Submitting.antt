-- ===== src/Broker/Ledger/Invariant/Submitting.antt =====
-- app/broker/shadow_ledger.py: `deposit`, `review` and `submit` keep the invariant.
use sentry.Prelude.{◌+◌, ◌≤◌, ◌<◌, ◌≡◌, List, arith}
use sentry.Prelude.Int.{ℤ, pos, ◌≤ℤ◌, -ℤ_parts, int_laws}
use sentry.Prelude.Dict.{insert, AllEntries-insert, sum_values-insert_le}
use sentry.Domain.Market.{Label, Day, OptionContract}
use sentry.Domain.Trade.{TradeProposal}
use sentry.Domain.Order.{BrokerCommandIntent, BrokerOrder}
use sentry.Broker.Ledger.State.{ShadowLedger, LedgerOrder, Context, Warning}
use sentry.Broker.Ledger.Holdings.{
  reserved_buying_power, reserved_quantity, owned_quantity, buying_power,
  available_position_quantity, buy_reserve, sell_reserve,
}
use sentry.Broker.Ledger.Orders.{
  deposit, review, submit, submit_reasons, submitted_order, store_submission, submit_new,
}
use sentry.Broker.Ledger.Invariant.{IsValid, IsValidEntry}

pub deposit-IsValid :
    (expiry : Label → Day) (x : Context) (amount : ℤ) (reference : Label) (l : ShadowLedger)
    → IsValid expiry l
    → IsValid expiry (deposit x amount reference l).1
unfolding deposit
deposit-IsValid expiry x amount reference l valid = grind (int_laws, valid)

pub review-IsValid :
    (expiry : Label → Day) (x : Context) (p : TradeProposal) (l : ShadowLedger)
    → IsValid expiry l
    → IsValid expiry (review x p l).1
unfolding review
review-IsValid expiry x p l valid = record {
  covered = valid.covered;
  held = valid.held;
  orders_valid = valid.orders_valid;
  positions_valid = valid.positions_valid;
}

-- What pydantic checks of a command, and that its contract is the one that its instrument names.
abbrev pub IsWellFormed : (Label → Day) → BrokerCommandIntent → OptionContract → Type 0
IsWellFormed expiry command contract =
    (0 < command.quantity)
    × (0 < command.limit_price)
    × (contract.expiration ≡ expiry contract.instrument_id)

module _ (x : Context) (command : BrokerCommandIntent) (contract : OptionContract)
    (l : ShadowLedger) where
  abbrev pub reasons : List Warning
  reasons = submit_reasons x l command contract

  abbrev pub order : BrokerOrder
  order = submitted_order x l command contract reasons

  pub orders-store_submission :
      (store_submission x command order reasons l).orders
      ≡ insert order.order_id (record { published = order; command = command }) l.orders
  unfolding store_submission
  orders-store_submission = ground arith

  kept-store_submission :
      ((store_submission x command order reasons l).cash ≡ l.cash)
      × ((store_submission x command order reasons l).positions ≡ l.positions)
  unfolding store_submission
  kept-store_submission = ground arith

  buy_reserve-fits :
      pos (reserved_buying_power l.orders) ≤ℤ l.cash
      → pos (reserved_buying_power l.orders + buy_reserve order) ≤ℤ l.cash
  unfolding buy_reserve submitted_order submit_reasons buying_power
  buy_reserve-fits h = ground (arith, -ℤ_parts l.cash (pos (reserved_buying_power l.orders)))

  sell_reserve-fits :
      (i : Label)
      → reserved_quantity i l.orders ≤ owned_quantity i l.positions
      → reserved_quantity i l.orders + sell_reserve i order ≤ owned_quantity i l.positions
  unfolding sell_reserve submitted_order submit_reasons available_position_quantity
  sell_reserve-fits i h =
      ground
        (arith, -ℤ_parts (pos (owned_quantity i l.positions)) (pos (reserved_quantity i l.orders)))

  module _ (expiry : Label → Day) (formed : IsWellFormed expiry command contract)
      (valid : IsValid expiry l) where
    entry_valid :
        IsValidEntry expiry order.order_id (record { published = order; command = command })
    unfolding submitted_order
    entry_valid = ground (arith, formed)

    submit_new-IsValid : IsValid expiry (submit_new x command contract l).1
    unfolding submit_new reserved_buying_power reserved_quantity
    submit_new-IsValid =
        let item : LedgerOrder = record { published = order; command = command } in
        let (same_cash, same_positions) = kept-store_submission in
        record {
          covered =
              rw (orders-store_submission, same_cash)
                (omega (
                  arith,
                  sum_values-insert_le (λ e. buy_reserve e.published) order.order_id item l.orders,
                  buy_reserve-fits valid.covered,
                ));
          held = λ i.
              rw (orders-store_submission, same_positions)
                (omega (
                  arith,
                  sum_values-insert_le (λ e. sell_reserve i e.published) order.order_id item
                      l.orders,
                  sell_reserve-fits i (valid.held i),
                ));
          orders_valid = rw orders-store_submission (
              AllEntries-insert (IsValidEntry expiry) order.order_id item l.orders
                valid.orders_valid entry_valid);
          positions_valid = rw same_positions valid.positions_valid;
        }

pub submit-IsValid :
    (expiry : Label → Day) (x : Context) (command : BrokerCommandIntent) (contract : OptionContract)
    (l : ShadowLedger)
    → IsWellFormed expiry command contract
    → IsValid expiry l
    → IsValid expiry (submit x command contract l).1
unfolding submit
submit-IsValid expiry x command contract l formed valid =
    grind (arith, valid, submit_new-IsValid x command contract l expiry formed valid)

-- ===== src/Broker/Ledger/Admitted/Tests.antt =====
-- app/risk/engine.py and app/broker/shadow_ledger.py on one concrete purchase.
use sentry.Prelude.{◌<◌, ◌≡◌, refl, true, none, some, arith}
use sentry.Prelude.Dict.{lookup}
use sentry.Domain.Enums.{AccountKind, ExecutionEnvironment, OrderState}
use sentry.Domain.Market.{AccountSnapshot}
use sentry.Domain.Order.{BrokerOrder}
use sentry.Broker.Ledger.State.{ok, new}
use sentry.Broker.Ledger.Orders.{command_error, submit}
use sentry.Broker.Ledger.Audit.{account_snapshot}
use sentry.Risk.Engine.{evaluate}
use sentry.Risk.Tests.{engine, quote, entry}
use sentry.Domain.Trade.{max_loss}
use sentry.Broker.Ledger.Admitted.{submit-evaluate}
use sentry.Broker.Ledger.Tests.{at_time, contract, purchase, start}

abbrev snapshot : AccountSnapshot
snapshot = record {
  snapshot_id = 40;
  environment = ExecutionEnvironment.demo;
  account_kind = AccountKind.shadow;
  cash = 1000;
  buying_power = 1000;
  open_option_risk = 0;
  open_positions = 0;
  new_entries_today = 0;
  as_of = 100;
  is_authenticated = true;
  state_known = true;
}

snapshot_of_start : account_snapshot (λ n. 40) (at_time 100) start ≡ some snapshot
unfolding account_snapshot new sentry.Broker.Ledger.Holdings.buying_power
    sentry.Broker.Ledger.Audit.position_cost sentry.Broker.Ledger.Audit.exposed_instruments
    sentry.Prelude.Int.◌-ℤ◌ sentry.Broker.Ledger.Holdings.reserved_buying_power
snapshot_of_start = refl

entry_cost : 0 < max_loss entry
unfolding max_loss
entry_cost = omega arith

entry_allowed : (evaluate engine 100 entry snapshot quote).allowed ≡ true
unfolding evaluate sentry.Risk.Engine.decide sentry.Risk.Engine.failed
    sentry.Risk.Engine.identity_outcomes sentry.Risk.Engine.entry_outcomes max_loss
entry_allowed = refl

purchase_fits : command_error start purchase contract ≡ none
unfolding command_error new
purchase_fits = refl

key_is_new : lookup 15 start.order_by_idempotency ≡ none
unfolding new
key_is_new = refl

submit-evaluate_example :
    (order : BrokerOrder) × ((submit (at_time 100) purchase contract start).0 ≡ ok order)
    × (order.state ≡ OrderState.opened)
    × (order.quantity ≡ 2)
    × (order.limit_price ≡ 3)
submit-evaluate_example =
    submit-evaluate engine (at_time 100) start (λ n. 40) purchase entry snapshot quote refl
      entry_cost snapshot_of_start entry_allowed (refl, refl, refl) (omega arith) purchase_fits
      key_is_new

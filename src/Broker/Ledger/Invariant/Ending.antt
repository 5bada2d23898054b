-- ===== src/Broker/Ledger/Invariant/Ending.antt =====
-- app/broker/shadow_ledger.py: `cancel` and `expire` keep the invariant.
use sentry.Prelude.{ℕ, ◌≡◌, refl, false, Option, none, some, arith}
use sentry.Prelude.Dict.{Dict, insert, AllEntries-insert, AllEntries-lookup, sum_values-insert_le}
use sentry.Domain.Enums.{OrderState}
use sentry.Domain.Market.{Label, Day, Uuid}
use sentry.Domain.Order.{BrokerCommandIntent, BrokerOrder}
use sentry.Broker.Ledger.State.{ShadowLedger, LedgerOrder, Context, is_open}
use sentry.Broker.Ledger.Holdings.{
  reserved_buying_power, reserved_quantity, buy_reserve, sell_reserve,
}
use sentry.Broker.Ledger.Cancel.{cancel_found, find_order, cancel, cancel_target, Target}
use sentry.Broker.Ledger.Search.{Stands, find_order-Stands}
use sentry.Broker.Ledger.Invariant.{IsValid, IsValidEntry, IsValidOrder}

-- An order that is ended reserves nothing.
pub ended_reserves :
    (i : Label) (o : BrokerOrder)
    → is_open o.state ≡ false
    → (buy_reserve o ≡ 0) × (sell_reserve i o ≡ 0)
unfolding buy_reserve sell_reserve
ended_reserves i o h = ground arith

module _ (expiry : Label → Day) where
  -- An ended order in place of any other.
  ended-IsValid :
      (key : ℕ) (item : LedgerOrder) (known : Dict Uuid) (l : ShadowLedger)
      → IsValidOrder expiry item.published
      → is_open item.published.state ≡ false
      → IsValid expiry l
      → IsValid expiry
          (record l { orders = insert key item l.orders; order_by_idempotency = known })
  unfolding reserved_buying_power reserved_quantity
  ended-IsValid key item known l ok ended valid = record {
    covered = omega (
      arith,
      sum_values-insert_le (λ e. buy_reserve e.published) key item l.orders,
      ended_reserves 0 item.published ended,
      valid.covered,
    );
    held = λ i. omega (
      arith,
      sum_values-insert_le (λ e. sell_reserve i e.published) key item l.orders,
      ended_reserves i item.published ended,
      valid.held i,
    );
    orders_valid = AllEntries-insert (IsValidEntry expiry) key item l.orders valid.orders_valid ok;
    positions_valid = valid.positions_valid;
  }

  cancel_found-IsValid :
      (command : BrokerCommandIntent) (key : ℕ) (item : LedgerOrder) (l : ShadowLedger)
      → IsValidOrder expiry item.published
      → IsValid expiry l
      → IsValid expiry (cancel_found command key item l).1
  unfolding cancel_found
  cancel_found-IsValid command key item l ok valid =
      let canceled : LedgerOrder = record item {
        published = record item.published { state = OrderState.canceled };
      } in
      grind (
        arith,
        valid,
        ended-IsValid key canceled
            (insert command.idempotency_key item.published.order_id l.order_by_idempotency) l
            (ground (arith, ok)) refl valid,
      )

  cancel_target-IsValid :
      (command : BrokerCommandIntent) (found : Option (ℕ × LedgerOrder)) (l : ShadowLedger)
      → Stands l.orders found
      → IsValid expiry l
      → IsValid expiry (cancel_target command found l).1
  cancel_target-IsValid command none l stands valid = valid
  cancel_target-IsValid command (some (key, item)) l stands valid =
      cancel_found-IsValid command key item l
        (AllEntries-lookup (IsValidEntry expiry) key item l.orders valid.orders_valid stands) valid

  pub cancel-IsValid :
      (x : Context) (command : BrokerCommandIntent) (target : Target) (l : ShadowLedger)
      → IsValid expiry l
      → IsValid expiry (cancel x command target l).1
  unfolding cancel
  cancel-IsValid x command target l valid =
      let found = find_order x target l.orders in
      grind (
        arith,
        valid,
        cancel_target-IsValid command found l (find_order-Stands x target l.orders) valid,
      )

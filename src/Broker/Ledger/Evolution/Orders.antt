-- ===== src/Broker/Ledger/Evolution/Orders.antt =====
-- app/broker/shadow_ledger.py: `cancel` and `submit` take an order to a later version of itself.
use sentry.Prelude.{ℕ, ◌≡◌, refl, inl, inr, ◌⊎◌, ◌≢◌, Option, none, some, arith, Bool-cases, ◌==◌}
use sentry.Domain.Enums.{OrderState}
use sentry.Domain.Market.{OptionContract}
use sentry.Domain.Order.{BrokerCommandIntent}
use sentry.Broker.Ledger.State.{ShadowLedger, LedgerOrder, Context, is_open, is_terminal}
use sentry.Broker.Ledger.Orders.{submit, submit_new, submitted_order}
use sentry.Broker.Ledger.Cancel.{Target, cancel_found, cancel_target, cancel, find_order}
use sentry.Broker.Ledger.Invariant.Submitting.{orders-store_submission}
use sentry.Broker.Ledger.Evolution.{ended_order-IsLater}
use sentry.Broker.Ledger.Evolution.At.{
  EvolvesAt, EvolvesAt-refl, EvolvesAt-insert, EvolvesAt-insert_ne,
}
use sentry.Broker.Ledger.Search.{Stands, find_order-Stands}

module _ (k : ℕ) where
  cancel_target-EvolvesAt :
      (command : BrokerCommandIntent) (found : Option (ℕ × LedgerOrder)) (l : ShadowLedger)
      → Stands l.orders found
      → EvolvesAt k l.orders (cancel_target command found l).1.orders
  unfolding cancel_found
  cancel_target-EvolvesAt command none l s = EvolvesAt-refl k l.orders
  cancel_target-EvolvesAt command (some (key, item)) l s =
      let o = item.published in
      let same = EvolvesAt-refl k l.orders in
      elim (Bool-cases (command.instrument_id == o.contract.instrument_id)) [
        | inl i ↦ elim (Bool-cases (is_terminal o.state)) [
          | inl t ↦ rw (i, t) same
          | inr t ↦ elim (Bool-cases (is_open o.state)) [
            | inl opened ↦
                rw (i, t, opened)
                  (EvolvesAt-insert k key item _ l.orders s
                    (ended_order-IsLater o OrderState.canceled opened (inl refl)))
            | inr closed ↦ rw (i, t, closed) same
          ]
        ]
        | inr i ↦ rw i same
      ]

  cancel-state :
      (x : Context) (command : BrokerCommandIntent) (target : Target) (l : ShadowLedger)
      → ((cancel x command target l).1 ≡ l)
        ⊎ ((cancel x command target l).1
            ≡ (cancel_target command (find_order x target l.orders) l).1)
  unfolding cancel
  cancel-state x command target l = ground arith

  pub cancel-EvolvesAt :
      (x : Context) (command : BrokerCommandIntent) (target : Target) (l : ShadowLedger)
      → EvolvesAt k l.orders (cancel x command target l).1.orders
  cancel-EvolvesAt x command target l = elim (cancel-state x command target l) [
    | inl e ↦ rw e (EvolvesAt-refl k l.orders)
    | inr e ↦ rw e (
        cancel_target-EvolvesAt command (find_order x target l.orders) l
          (find_order-Stands x target l.orders))
  ]

  submit-state :
      (x : Context) (command : BrokerCommandIntent) (contract : OptionContract) (l : ShadowLedger)
      → ((submit x command contract l).1 ≡ l)
        ⊎ ((submit x command contract l).1 ≡ (submit_new x command contract l).1)
  unfolding submit
  submit-state x command contract l = ground arith

  -- A submission of another order.
  pub submit-EvolvesAt :
      (x : Context) (command : BrokerCommandIntent) (contract : OptionContract) (l : ShadowLedger)
      → k ≢ x.order_id command.order_intent_id
      → EvolvesAt k l.orders (submit x command contract l).1.orders
  unfolding submit_new
  submit-EvolvesAt x command contract l ne = elim (submit-state x command contract l) [
    | inl e ↦ rw e (EvolvesAt-refl k l.orders)
    | inr e ↦
        rw (e, submit_new, orders-store_submission x command contract l)
          (EvolvesAt-insert_ne k _ _ l.orders (unfold submitted_order in ne))
  ]

-- ===== src/Broker/Ledger/Admitted.antt =====
-- app/risk/engine.py before app/broker/shadow_ledger.py: what the risk engine lets through, on the
-- account that the ledger itself reports.
mod Tests
use sentry.Prelude.{ℕ, ◌≤◌, ◌<◌, ◌≡◌, refl, true, none, some, [], arith}
use sentry.Prelude.Dict.{lookup}
use sentry.Domain.Enums.{is_buy, OrderState}
use sentry.Domain.Market.{Uuid, OptionQuote, AccountSnapshot}
use sentry.Domain.Trade.{TradeProposal, max_loss}
use sentry.Domain.Order.{BrokerOrder, BrokerCommandIntent}
use sentry.Risk.Engine.{RiskEngine, evaluate}
use sentry.Risk.Admission.{evaluate-IsWithinLimits}
use sentry.Broker.Ledger.State.{ShadowLedger, Context, ok}
use sentry.Broker.Ledger.Holdings.{buying_power}
use sentry.Broker.Ledger.Orders.{
  submit, submit_new, submit_reasons, submitted_order, command_error, duplicate_order,
}
use sentry.Broker.Ledger.Audit.{account_snapshot}

-- The command carries the proposal's terms.
abbrev pub SameTerms : TradeProposal → BrokerCommandIntent → Type 0
SameTerms p command =
    (command.side ≡ p.side)
    × (command.quantity ≡ p.quantity)
    × (command.limit_price ≡ p.limit_price)

module _ (x : Context) (l : ShadowLedger) (command : BrokerCommandIntent) (p : TradeProposal)
    (terms : SameTerms p command) (b : is_buy p.side ≡ true) where
  affordable :
      (a : AccountSnapshot) (id : ℕ → Uuid)
      → account_snapshot id x l ≡ some a
      → max_loss p ≤ a.buying_power
      → 0 < max_loss p
      → x.market_date x.now ≤ p.contract.expiration
      → submit_reasons x l command p.contract ≡ []
  unfolding account_snapshot submit_reasons max_loss
  affordable a id s h z d = ground (arith, terms)

  -- A new submission with no reason against it is opened.
  opened :
      submit_reasons x l command p.contract ≡ []
      → command_error l command p.contract ≡ none
      → lookup command.idempotency_key l.order_by_idempotency ≡ none
      → (order : BrokerOrder) × ((submit x command p.contract l).0 ≡ ok order)
        × (order.state ≡ OrderState.opened)
        × (order.quantity ≡ p.quantity)
        × (order.limit_price ≡ p.limit_price)
  unfolding submit duplicate_order submit_new submitted_order
  opened r e k = (
    submitted_order x l command p.contract [],
    rw (e, k, submit_new, r) refl,
    refl,
    terms.1,
    terms.2,
  )

-- An entry of positive cost that the risk engine allows, with any quote, on the account snapshot
-- that the ledger itself reports, is opened with the same quantity and limit when it is submitted to
-- that ledger under a key not used before, unless the contract has expired or the command does not
-- fit the ledger.
pub submit-evaluate :
    (e : RiskEngine) (x : Context) (l : ShadowLedger) (id : ℕ → Uuid)
    (command : BrokerCommandIntent) (p : TradeProposal) (a : AccountSnapshot) (q : OptionQuote)
    → is_buy p.side ≡ true
    → 0 < max_loss p
    → account_snapshot id x l ≡ some a
    → (evaluate e x.now p a q).allowed ≡ true
    → SameTerms p command
    → x.market_date x.now ≤ p.contract.expiration
    → command_error l command p.contract ≡ none
    → lookup command.idempotency_key l.order_by_idempotency ≡ none
    → (order : BrokerOrder) × ((submit x command p.contract l).0 ≡ ok order)
      × (order.state ≡ OrderState.opened)
      × (order.quantity ≡ p.quantity)
      × (order.limit_price ≡ p.limit_price)
submit-evaluate e x l id command p a q b z snapshot allowed terms d valid fresh =
    let (current, limits) = (evaluate-IsWithinLimits e x.now p a q b).0 allowed in
    opened x l command p terms b
      (affordable x l command p terms b a id snapshot limits.power_covers z d) valid fresh

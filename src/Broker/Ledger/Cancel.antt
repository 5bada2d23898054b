-- ===== src/Broker/Ledger/Cancel.antt =====
-- app/broker/shadow_ledger.py: `_find_order` and `cancel`.
use sentry.Prelude.{ℕ, Bool, false, not, Option, none, some, List, [], ◌∷◌, ◌==◌, if◌then◌else◌}
use sentry.Prelude.Dict.{Dict, lookup, insert, keys}
use sentry.Domain.Enums.{OrderState, same_environment, is_cancel}
use sentry.Domain.Market.{Uuid, Label}
use sentry.Domain.Order.{BrokerCommandIntent, BrokerOrder}
use sentry.Broker.Ledger.State.{
  LedgerOrder, Context, Error, ok, err, Action, raise, raise_if, gets, is_open, is_terminal, ◌>>=◌,
  ◌>>◌,
}
use sentry.Broker.Ledger.Orders.{duplicate_order}

-- An order identifier as it is given: `UUID | str`.
pub data Target : Type 0 where
  by_uuid : Uuid → Target
  by_text : Label → Target

abbrev pub has_broker_id : Label → LedgerOrder → Bool
has_broker_id text item = elim item.published.broker_order_id [
  | none ↦ false
  | some id ↦ id == text
]

abbrev pub or_else {ℓ} : {A : Type ℓ} → Option A → Option A → Option A
or_else none b = b
or_else (some a) b = some a

abbrev pub match_broker_id : Label → ℕ → Option LedgerOrder → Option (ℕ × LedgerOrder)
match_broker_id text key none = none
match_broker_id text key (some item) = if has_broker_id text item then some (key, item) else none

-- The search over the broker's order identifiers, through the keys of the dictionary.
abbrev pub find_broker_id : Label → Dict LedgerOrder → List ℕ → Option (ℕ × LedgerOrder)
find_broker_id text d [] = none
find_broker_id text d (key ∷ rest) =
    or_else (match_broker_id text key (lookup key d)) (find_broker_id text d rest)

abbrev pub find_id : Option Uuid → Dict LedgerOrder → Option (ℕ × LedgerOrder)
find_id none d = none
find_id (some id) d = elim (lookup id d) [ none ↦ none | some item ↦ some (id, item) ]

-- `_find_order`
unfoldable pub find_order : Context → Target → Dict LedgerOrder → Option (ℕ × LedgerOrder)
find_order x (Target.by_uuid id) d = find_id (some id) d
find_order x (Target.by_text text) d =
    or_else (find_id (x.parse_uuid text) d) (find_broker_id text d (keys d))

unfoldable pub cancel_found : BrokerCommandIntent → ℕ → LedgerOrder → Action BrokerOrder
cancel_found command key item l =
    let order = item.published in
    let canceled = record order { state = OrderState.canceled } in
    if not (command.instrument_id == order.contract.instrument_id)
    then (err Error.wrong_instrument, l)
    else if is_terminal order.state
    then (
      ok order,
      record l {
        order_by_idempotency = insert command.idempotency_key order.order_id l.order_by_idempotency;
      },
    )
    else if not (is_open order.state)
    then (err Error.not_cancelable, l)
    else (
      ok canceled,
      record l {
        orders = insert key (record item { published = canceled }) l.orders;
        order_by_idempotency =
            insert command.idempotency_key canceled.order_id l.order_by_idempotency;
      },
    )

abbrev pub cancel_target : BrokerCommandIntent → Option (ℕ × LedgerOrder) → Action BrokerOrder
cancel_target command none = raise Error.unknown_order
cancel_target command (some (key, item)) = cancel_found command key item

abbrev pub cancel_unless :
    Context → BrokerCommandIntent → Target → Option BrokerOrder → Action BrokerOrder
cancel_unless x command target none l = cancel_target command (find_order x target l.orders) l
cancel_unless x command target (some order) l = (ok order, l)

unfoldable pub cancel : Context → BrokerCommandIntent → Target → Action BrokerOrder
unfolding duplicate_order
cancel x command target = do
  raise_if (not (is_cancel command.action)) Error.wrong_action
  raise_if (not (← gets (λ l. same_environment command.environment l.environment)))
      Error.command_environment
  duplicate ← duplicate_order x command
  cancel_unless x command target duplicate

-- ===== src/Broker/Ledger/Orders.antt =====
-- app/broker/shadow_ledger.py: `deposit`, `review` and `submit`.
use sentry.Prelude.{
  ⊤, ◌-◌, ◌*◌, Bool, true, false, not, ◌&&◌, ◌||◌, Option, none, some, List, [], ◌∷◌, ◌++◌, ltb,
  ◌==◌, if◌then◌else◌, is_empty,
}
use sentry.Prelude.Int.{ℤ, pos, pos_part, ◌+ℤ◌, ltb_ℤ, leb_ℤ}
use sentry.Prelude.Dict.{lookup, insert}
use sentry.Domain.Enums.{OrderState, is_buy, same_side, same_environment, is_place}
use sentry.Domain.Market.{Uuid, Label, OptionQuote, OptionContract}
use sentry.Domain.Trade.{TradeProposal, max_loss}
use sentry.Domain.Order.{BrokerCommandIntent, BrokerOrder}
use sentry.Broker.Ledger.State.{
  ShadowLedger, LedgerOrder, DepositRecord, Context, Warning, Error, Result, ok, err, Action, pure,
  gets, ◌>>=◌, ◌>>◌,
}
use sentry.Broker.Ledger.Holdings.{buying_power, available_position_quantity}
use sentry.Broker.Ledger.Fills.{add_entry}

unfoldable pub deposit : Context → ℤ → Label → Action DepositRecord
deposit x amount reference l =
    let made : DepositRecord = record {
      amount = pos_part amount;
      deposited_at = x.now;
      reference = reference;
    } in
    if leb_ℤ amount (pos 0)
    then (err Error.deposit_not_positive, l)
    else (ok made, record l { cash = l.cash +ℤ amount; deposits = l.deposits ++ made ∷ [] })

-- `if test: warnings.append(w)`, in front of the warnings that come after it.
abbrev pub warn_if : Bool → Warning → List Warning → List Warning
warn_if true w rest = w ∷ rest
warn_if false w rest = rest

abbrev pub quote_warnings :
    Context → ShadowLedger → TradeProposal → Option OptionQuote → List Warning
quote_warnings x l p none = Warning.no_quote ∷ []
quote_warnings x l p (some q) =
    warn_if (not (q.snapshot_id == p.quote_snapshot_id)) Warning.not_latest_quote (
      if ltb x.now q.effective_at || ltb x.now q.observed_at
      then Warning.from_future ∷ []
      else warn_if (ltb l.max_quote_age (x.now - q.observed_at)) Warning.stale [])

abbrev pub capacity_warnings : ShadowLedger → TradeProposal → List Warning
capacity_warnings l p =
    if is_buy p.side
    then warn_if (ltb_ℤ (buying_power l) (pos (max_loss p))) Warning.insufficient_buying_power []
    else warn_if (ltb_ℤ (available_position_quantity p.contract.instrument_id l) (pos p.quantity))
        Warning.insufficient_position []

unfoldable pub review_warnings : Context → ShadowLedger → TradeProposal → List Warning
review_warnings x l p =
    warn_if (not (same_environment p.environment l.environment)) Warning.wrong_environment (
      warn_if (not (p.namespace == l.namespace)) Warning.wrong_namespace (
        warn_if (ltb p.contract.expiration (x.market_date x.now)) Warning.contract_expired (
          quote_warnings x l p (lookup p.contract.instrument_id l.quotes)
          ++ capacity_warnings l p)))

-- `review`; the review is accepted if the list is empty.
unfoldable pub review : Context → TradeProposal → Action (List Warning)
review x p l =
    (ok (review_warnings x l p), record l { proposals = insert p.proposal_id p l.proposals })

-- `_duplicate_order`
abbrev pub duplicate_found :
    Context → BrokerCommandIntent → Option LedgerOrder → Result (Option BrokerOrder)
duplicate_found x command none = err Error.missing_key
duplicate_found x command (some item) =
    if is_place command.action && not (x.command_hash item.command == x.command_hash command)
    then err Error.idempotency_reused
    else ok (some item.published)

abbrev pub duplicate_known :
    Context → BrokerCommandIntent → ShadowLedger → Option Uuid → Result (Option BrokerOrder)
duplicate_known x command l none = ok none
duplicate_known x command l (some id) = duplicate_found x command (lookup id l.orders)

unfoldable pub duplicate_order : Context → BrokerCommandIntent → Action (Option BrokerOrder)
duplicate_order x command l =
    (duplicate_known x command l (lookup command.idempotency_key l.order_by_idempotency), l)

abbrev pub proposal_error : BrokerCommandIntent → Option TradeProposal → Option Error
proposal_error command none = none
proposal_error command (some p) =
    if not (p.contract.instrument_id == command.instrument_id)
    then some Error.proposal_instrument
    else if not (same_side p.side command.side) || not (p.quantity == command.quantity)
    then some Error.proposal_terms
    else if not (p.limit_price == command.limit_price)
    then some Error.proposal_limit
    else none

-- `_validate_command` for a placement
unfoldable pub command_error : ShadowLedger → BrokerCommandIntent → OptionContract → Option Error
command_error l command contract =
    if not (same_environment command.environment l.environment)
    then some Error.command_environment
    else if not (command.namespace == l.namespace)
    then some Error.command_namespace
    else if not (is_place command.action)
    then some Error.wrong_action
    else if not (command.instrument_id == contract.instrument_id)
    then some Error.wrong_instrument
    else proposal_error command (lookup command.proposal_id l.proposals)

abbrev pub raise_some : Option Error → Action ⊤
raise_some none l = (ok tt, l)
raise_some (some e) l = (err e, l)

-- The reasons for which a submission is stored as rejected.
unfoldable pub submit_reasons :
    Context → ShadowLedger → BrokerCommandIntent → OptionContract → List Warning
submit_reasons x l command contract =
    warn_if (ltb contract.expiration (x.market_date x.now)) Warning.contract_expired (
      if is_buy command.side
      then warn_if
          (ltb_ℤ (buying_power l)
            (pos (command.limit_price * command.quantity * contract.multiplier)))
          Warning.insufficient_buying_power []
      else warn_if
          (ltb_ℤ (available_position_quantity contract.instrument_id l) (pos command.quantity))
          Warning.insufficient_position [])

unfoldable pub submitted_order :
    Context → ShadowLedger → BrokerCommandIntent → OptionContract → List Warning → BrokerOrder
submitted_order x l command contract reasons = record {
  order_id = x.order_id command.order_intent_id;
  broker_order_id = none;
  intent_id = command.order_intent_id;
  environment = l.environment;
  state = if is_empty reasons then OrderState.opened else OrderState.rejected;
  contract = contract;
  side = command.side;
  quantity = command.quantity;
  filled_quantity = 0;
  limit_price = command.limit_price;
  average_fill_price = none;
  submitted_at = some x.now;
}

-- What `submit` writes: the order, its idempotency key, and a rejection or the day's admission.
unfoldable pub store_submission :
    Context → BrokerCommandIntent → BrokerOrder → List Warning → ShadowLedger → ShadowLedger
store_submission x command order reasons l =
    let placed = record l {
      orders = insert order.order_id (record { published = order; command = command }) l.orders;
      order_by_idempotency = insert command.idempotency_key order.order_id l.order_by_idempotency;
    } in
    if not (is_empty reasons)
    then record placed { rejection_reasons = insert order.order_id reasons l.rejection_reasons }
    else if is_buy command.side
    then record placed {
      entry_orders_by_date = add_entry (x.market_date x.now) order.order_id l.entry_orders_by_date;
    }
    else placed

unfoldable pub submit_new : Context → BrokerCommandIntent → OptionContract → Action BrokerOrder
submit_new x command contract l =
    let reasons = submit_reasons x l command contract in
    let order = submitted_order x l command contract reasons in
    (ok order, store_submission x command order reasons l)

abbrev pub submit_unless :
    Context → BrokerCommandIntent → OptionContract → Option BrokerOrder → Action BrokerOrder
submit_unless x command contract none = submit_new x command contract
submit_unless x command contract (some order) = pure order

unfoldable pub submit : Context → BrokerCommandIntent → OptionContract → Action BrokerOrder
unfolding duplicate_order
submit x command contract = do
  raise_some (← gets (λ l. command_error l command contract))
  duplicate ← duplicate_order x command
  submit_unless x command contract duplicate

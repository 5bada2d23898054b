-- ===== src/Broker/Ledger/Tests.antt =====
-- app/broker/shadow_ledger.py on a concrete ledger: a purchase, its fill, and the date after.
use sentry.Prelude.{ℕ, ◌+◌, ◌≡◌, refl, true, none, some, List, [], ◌∷◌, arith, All}
use sentry.Prelude.Int.{pos}
use sentry.Prelude.Dict.{lookup}
use sentry.Domain.Enums.{AccountKind, ExecutionEnvironment, OrderSide, OptionType, BrokerAction}
use sentry.Domain.Market.{Label, Day, OptionContract, OptionQuote}
use sentry.Domain.Order.{BrokerCommandIntent, Arguments}
use sentry.Execution.StateMachine.{is_terminal}
use sentry.Broker.FillModel.{optimistic_model}
use sentry.Broker.FillModel.Lawful.{IsLawfulModel, evaluate-IsLawful}
use sentry.Broker.Ledger.State.{ShadowLedger, LedgerOrder, Context, Error, ok, err, new}
use sentry.Broker.Ledger.Fills.{filled_order}
use sentry.Broker.Ledger.Quotes.{observe_quote}
use sentry.Broker.Ledger.Orders.{command_error, submit, submitted_order}
use sentry.Broker.Ledger.Expiry.{ExpirationPolicy, expire}
use sentry.Broker.Ledger.Audit.{reconciles}
use sentry.Broker.Ledger.History.{Call, run, run-reconciles, IsFormed, run-IsValid, new-IsValid}
use sentry.Broker.Ledger.Invariant.{IsValid}
use sentry.Broker.Ledger.NoFault.{is_data_invalid, observe_quote-no_fault}
use sentry.Broker.Ledger.Evolution.{IsLater}
use sentry.Broker.Ledger.Evolution.Runs.{run-IsLater, run-keeps_terminal}
use sentry.Broker.Ledger.Retry.{submit-retry}

abbrev pub at_time : ℕ → Context
at_time now = record {
  fill_model = optimistic_model (λ o q. 7);
  now = now;
  market_date = λ t. 5;
  order_id = λ intent. intent + 100;
  fill_id = λ n. n;
  position_id = λ n. n;
  command_hash = λ c. c.command_intent_id;
  parse_uuid = some;
}

abbrev pub contract : OptionContract
contract = record {
  instrument_id = 3;
  symbol = 1;
  option_type = OptionType.call;
  strike = 50;
  expiration = 9;
  multiplier = 100;
}

abbrev pub purchase : BrokerCommandIntent
purchase = record {
  command_intent_id = 11;
  created_at = 95;
  order_intent_id = 12;
  environment = ExecutionEnvironment.demo;
  namespace = 1;
  action = BrokerAction.place_option_order;
  capability_name = 1;
  capability_schema_version = 1;
  capability_schema_hash = 1;
  instrument_id = 3;
  side = OrderSide.buy_to_open;
  quantity = 2;
  limit_price = 3;
  is_day = true;
  validated_arguments = Arguments.given 0;
  proposal_id = 13;
  risk_decision_id = 16;
  approval_id = none;
  quote_snapshot_id = 20;
  broker_observed_account_snapshot_id = none;
  effective_account_snapshot_id = 40;
  policy_version = 1;
  order_fingerprint = 14;
  idempotency_key = 15;
}

abbrev pub quote_at : ℕ → ℕ → OptionQuote
quote_at id time = record {
  snapshot_id = id;
  contract = contract;
  bid = 1;
  ask = 2;
  last = none;
  mark = none;
  volume = none;
  open_interest = none;
  implied_volatility = none;
  delta = none;
  bid_size = none;
  ask_size = some 10;
  provider = 1;
  capability_version = 1;
  source_id = none;
  observed_at = time;
  effective_at = time;
}

abbrev pub expiry : Label → Day
expiry i = 9

abbrev pub start : ShadowLedger
start = new 1000 AccountKind.shadow 30 1

abbrev history : List Call
history =
    Call.submit_call (at_time 100) purchase contract
    ∷ Call.quote_call (at_time 120) (quote_at 21 110)
    ∷ Call.expire_call (at_time 130) none ExpirationPolicy.do_not_exercise []
    ∷ []

abbrev formed : All (IsFormed expiry) history
formed = ((omega arith, omega arith, refl), (tt, (tt, tt)))

-- The purchase is filled at the ask, 2 contracts at 2 for 100 shares each.
history_cash : (run history start).cash ≡ pos 600
unfolding run new submit observe_quote expire submitted_order filled_order
    sentry.Broker.Ledger.History.apply sentry.Broker.Ledger.Orders.command_error
    sentry.Broker.Ledger.Orders.submit_new sentry.Broker.Ledger.Orders.store_submission
    sentry.Broker.Ledger.Orders.submit_reasons sentry.Broker.Ledger.Orders.duplicate_order
    sentry.Broker.Ledger.Holdings.buying_power sentry.Prelude.Int.◌-ℤ◌
    sentry.Broker.Ledger.Holdings.reserved_buying_power sentry.Broker.Ledger.Expiry.expire_due
    sentry.Broker.Ledger.Expiry.expire_positions sentry.Broker.Ledger.Expiry.expire_position
    sentry.Broker.Ledger.Expiry.expire_orders sentry.Broker.Ledger.Expiry.is_due
    sentry.Broker.Ledger.Quotes.accept_quote sentry.Broker.Ledger.Quotes.fill_loop
    sentry.Broker.Ledger.Quotes.fill_at sentry.Broker.Ledger.Quotes.fill_order
    sentry.Broker.FillModel.optimistic_evaluate sentry.Broker.Ledger.Fills.apply_fill
    sentry.Broker.Ledger.Fills.fill_error sentry.Broker.Ledger.Fills.publish
    sentry.Broker.Ledger.Fills.settle sentry.Broker.Ledger.Fills.settle_buy
    sentry.Broker.Ledger.Holdings.apply_entry_position sentry.Broker.Ledger.Holdings.mark_position
    sentry.Broker.Ledger.Holdings.profit sentry.Prelude.Decimal.quotient sentry.Prelude.Int.◌*ℤ◌
    sentry.Prelude.Int.◌+ℤ◌
history_cash = refl

run-reconciles_example : reconciles (run history start) ≡ true
run-reconciles_example = run-reconciles expiry 1000 AccountKind.shadow 30 1 history formed

abbrev pub placed : ShadowLedger
placed = run (Call.submit_call (at_time 100) purchase contract ∷ []) start

abbrev placed_order : LedgerOrder
placed_order = record {
  published = submitted_order (at_time 100) start purchase contract [];
  command = purchase;
}

placed_found : lookup 112 placed.orders ≡ some placed_order
unfolding run new submit submitted_order sentry.Broker.Ledger.History.apply
    sentry.Broker.Ledger.Orders.command_error sentry.Broker.Ledger.Orders.submit_new
    sentry.Broker.Ledger.Orders.store_submission sentry.Broker.Ledger.Orders.submit_reasons
    sentry.Broker.Ledger.Orders.duplicate_order sentry.Broker.Ledger.Holdings.buying_power
    sentry.Prelude.Int.◌-ℤ◌ sentry.Broker.Ledger.Holdings.reserved_buying_power
placed_found = refl

abbrev later_calls : List Call
later_calls =
    Call.quote_call (at_time 120) (quote_at 21 110)
    ∷ Call.expire_call (at_time 130) none ExpirationPolicy.do_not_exercise []
    ∷ []

run-IsLater_example :
    (item' : LedgerOrder) × (lookup 112 (run later_calls placed).orders ≡ some item')
    × IsLater placed_order.published item'.published
run-IsLater_example = run-IsLater 112 placed_order later_calls placed placed_found (tt, (tt, tt))

abbrev filled : ShadowLedger
filled = run later_calls placed

abbrev filled_item : LedgerOrder
filled_item = record {
  published = filled_order placed_order.published (record { quantity = 2; price = 2; seed = 7 });
  command = purchase;
}

filled_found : lookup 112 filled.orders ≡ some filled_item
unfolding run new submit observe_quote expire submitted_order filled_order
    sentry.Broker.Ledger.History.apply sentry.Broker.Ledger.Orders.command_error
    sentry.Broker.Ledger.Orders.submit_new sentry.Broker.Ledger.Orders.store_submission
    sentry.Broker.Ledger.Orders.submit_reasons sentry.Broker.Ledger.Orders.duplicate_order
    sentry.Broker.Ledger.Holdings.buying_power sentry.Prelude.Int.◌-ℤ◌
    sentry.Broker.Ledger.Holdings.reserved_buying_power sentry.Broker.Ledger.Expiry.expire_due
    sentry.Broker.Ledger.Expiry.expire_positions sentry.Broker.Ledger.Expiry.expire_position
    sentry.Broker.Ledger.Expiry.expire_orders sentry.Broker.Ledger.Expiry.is_due
    sentry.Broker.Ledger.Quotes.accept_quote sentry.Broker.Ledger.Quotes.fill_loop
    sentry.Broker.Ledger.Quotes.fill_at sentry.Broker.Ledger.Quotes.fill_order
    sentry.Broker.FillModel.optimistic_evaluate sentry.Broker.Ledger.Fills.apply_fill
    sentry.Broker.Ledger.Fills.fill_error sentry.Broker.Ledger.Fills.publish
    sentry.Broker.Ledger.Fills.settle sentry.Broker.Ledger.Fills.settle_buy
    sentry.Broker.Ledger.Holdings.apply_entry_position sentry.Broker.Ledger.Holdings.mark_position
    sentry.Broker.Ledger.Holdings.profit sentry.Prelude.Decimal.quotient sentry.Prelude.Int.◌*ℤ◌
    sentry.Prelude.Int.◌+ℤ◌
filled_found = refl

filled_terminal : is_terminal filled_item.published.state ≡ true
unfolding is_terminal filled_order submitted_order
filled_terminal = refl

run-keeps_terminal_example :
    (item' : LedgerOrder) × (lookup 112 (run later_calls filled).orders ≡ some item')
    × (item'.published.state ≡ filled_item.published.state)
run-keeps_terminal_example =
    run-keeps_terminal 112 filled_item later_calls filled filled_found (tt, (tt, tt))
      filled_terminal

optimistic_lawful : IsLawfulModel (at_time 105).fill_model
optimistic_lawful o q remaining h =
    (evaluate-IsLawful (record { touch_fill_probability = 0; displayed_size_participation = 1 }) 7 o
      q remaining h).0

placed-IsValid : IsValid expiry placed
placed-IsValid =
    run-IsValid expiry (Call.submit_call (at_time 100) purchase contract ∷ []) start (formed.0, tt)
      (new-IsValid expiry 1000 AccountKind.shadow 30 1)

quote_refused : (observe_quote (at_time 105) (quote_at 21 110) placed).0 ≡ err Error.future_quote
unfolding observe_quote
quote_refused = refl

observe_quote-no_fault_example : is_data_invalid Error.future_quote ≡ true
observe_quote-no_fault_example =
    observe_quote-no_fault expiry (at_time 105) (quote_at 21 110) placed optimistic_lawful
      placed-IsValid quote_refused

submit_accepts : (submit (at_time 100) purchase contract start).0 ≡ ok placed_order.published
unfolding submit new submitted_order sentry.Broker.Ledger.Orders.command_error
    sentry.Broker.Ledger.Orders.submit_new sentry.Broker.Ledger.Orders.submit_reasons
    sentry.Broker.Ledger.Orders.duplicate_order sentry.Broker.Ledger.Holdings.buying_power
    sentry.Prelude.Int.◌-ℤ◌ sentry.Broker.Ledger.Holdings.reserved_buying_power
submit_accepts = refl

submit-retry_example :
    submit (at_time 140) purchase contract (submit (at_time 100) purchase contract start).1
    ≡ (ok placed_order.published, (submit (at_time 100) purchase contract start).1)
submit-retry_example = submit-retry purchase contract (at_time 100) 140 start submit_accepts

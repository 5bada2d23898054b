-- ===== src/Execution/Service/Tests.antt =====
-- app/execution/service.py: histories of a service with a broker that answers, and with one that is
-- interrupted.
use sentry.Prelude.{◌+◌, ◌≡◌, refl, ⊤, true, false, none, some, List, [], ◌∷◌, All, length}
use sentry.Prelude.Dict.{lookup}
use sentry.Domain.Enums.{
  ExecutionEnvironment, TradingMode, RuntimeSafetyState, OrderState, BrokerAction,
}
use sentry.Domain.Order.{OrderIntent, BrokerCommandIntent, BrokerOrder}
use sentry.Safety.RuntimeState.{SafetyController, Reason}
use sentry.Risk.Tests.{engine, quote, entry, account}
use sentry.Execution.Error.{Error, Result, ok, err}
use sentry.Execution.Store.{Store, ReconciliationReport}
use sentry.Execution.Store.Grows.{IsAllowed}
use sentry.Execution.Service.State.{World, ServiceState, new}
use sentry.Execution.Service.Placement.{execute, default_arguments, settle_placement}
use sentry.Execution.Service.Cancellation.{settle_cancellation}
use sentry.Domain.Trade.{TradeProposal}
use sentry.Execution.Service.Reconciliation.{
  SubmissionReconciliation, record_broker_update, reconcile_submission,
}
use sentry.Execution.Service.Updated.{IsExactUpdate, record_broker_update-exact}
use sentry.Execution.Service.Reconciled.{IsAbsent, IsMatch, reconcile_submission-proves}
use sentry.Execution.Service.Failing.{execute-duplicate}
use sentry.Execution.Service.History.{Call, run}
use sentry.Execution.Service.Sent.{IsRecorded, IsAuthorized, AllDifferent}
use sentry.Execution.Service.Writes.{
  AskedIn, run-IsRecorded, run-AllDifferent, run-IsAuthorized, run-IsAllowed,
}

abbrev pub report : ReconciliationReport
report = record {
  environment = ExecutionEnvironment.demo;
  reconciled_at = 100;
  successful = true;
  order_history_complete = some true;
  negative_match_idempotency_keys = some (1013 ∷ []);
}

-- What the broker makes of a command.
abbrev pub opened : BrokerCommandIntent → BrokerOrder
opened c = record {
  order_id = c.order_intent_id + 500;
  broker_order_id = none;
  intent_id = c.order_intent_id;
  environment = ExecutionEnvironment.demo;
  state = OrderState.opened;
  contract = quote.contract;
  side = c.side;
  quantity = c.quantity;
  filled_quantity = 0;
  limit_price = c.limit_price;
  average_fill_price = none;
  submitted_at = some 100;
}

abbrev pub world : World
world = record {
  environment = ExecutionEnvironment.demo;
  namespace = 1;
  risk_engine = engine;
  now = λ t. 100;
  trading_mode = λ t. TradingMode.auto;
  kill_switch_active = λ t. false;
  healthcheck = λ t. true;
  meanwhile = λ t. [];
  store_fault = λ t. none;
  effective_account = λ t. ok account;
  observed_account = λ t. ok account;
  reconcile = λ t. ok report;
  orders = λ t. ok [];
  option_quote = λ t i. ok quote;
  review_option_order = λ t p. ok (record {
    review_id = 60;
    environment = ExecutionEnvironment.demo;
    proposal_id = p.proposal_id;
    accepted = true;
    side_effect_free = true;
  });
  capabilities = λ t. ok (record {
    descriptors =
        record {
          capability = 0;
          tool_name = 1;
          schema_version = 1;
          schema_hash = 70;
          available = true;
        }
        ∷ record {
          capability = 1;
          tool_name = 2;
          schema_version = 1;
          schema_hash = 71;
          available = true;
        }
        ∷ [];
    cancel_option_orders = true;
    external_writes_enabled = false;
    execution_ready = true;
  });
  place_option_order = λ t c contract. ok (opened c);
  cancel_option_order = λ t c target. ok (record (opened c) { state = OrderState.canceled });
  argument_builder = default_arguments;
  validate = λ d a. true;
  sha256_json = λ f. f.proposal_id;
  cancel_fingerprint = λ n target id. id + 7;
  idempotency_key = λ n f action. f + 1000;
  intent_id = λ action e n k. k + 100;
  command_id = λ i h. i + h;
  pending_id = λ i. i + 200;
  decision_id = λ t. t + 300;
  text_of = λ id. id;
  report_marker = λ r. 80;
  positions_marker = λ l. 81;
}

abbrev pub normal : SafetyController
normal = record {
  state = RuntimeSafetyState.normal;
  reason = Reason.all_passed;
  healthy_since = some 0;
  window = 10;
  entries_paused = false;
}

-- The order of `entry`, as the broker returns it.
abbrev pub placed : BrokerOrder
placed = record {
  order_id = 1613;
  broker_order_id = none;
  intent_id = 1113;
  environment = ExecutionEnvironment.demo;
  state = OrderState.opened;
  contract = quote.contract;
  side = entry.side;
  quantity = entry.quantity;
  filled_quantity = 0;
  limit_price = entry.limit_price;
  average_fill_price = none;
  submitted_at = some 100;
}

-- A placement, the same placement again, and its cancellation.
abbrev pub calls : List Call
calls = Call.execute_call entry none ∷ Call.execute_call entry none ∷ Call.cancel_call placed ∷ []

two_sent : length (run world calls (new normal)).sent ≡ 2
unfolding run new sentry.Execution.Service.State.◌>>=◌ sentry.Execution.Service.State.pure
    sentry.Execution.Service.State.raise sentry.Execution.Service.State.gets
    sentry.Execution.Service.State.attempt sentry.Execution.Service.State.raise_if
    sentry.Execution.Service.State.check sentry.Execution.Service.State.emergency_stop
    sentry.Execution.Service.State.latch sentry.Execution.Service.State.next_turn
    sentry.Execution.Service.State.await sentry.Execution.Service.State.stored
    sentry.Execution.Service.State.transmit sentry.Broker.Capabilities.descriptor_for_action
    sentry.Execution.Store.new sentry.Execution.Store.save_risk_decision
    sentry.Execution.Store.save_review sentry.Execution.Store.save_order_intent
    sentry.Execution.Store.save_command_intent sentry.Execution.Store.save_order
    sentry.Execution.Store.save_reconciliation sentry.Execution.Store.record_transition
    sentry.Execution.Store.find_intent_by_fingerprint sentry.Execution.Store.get_order
    sentry.Execution.Store.get_order_intent sentry.Execution.Store.get_command_for_order_intent
    sentry.Execution.Service.Gates.deny_interrupted_writes
    sentry.Execution.Service.Gates.preflight_denial sentry.Execution.Service.Gates.preflight
    sentry.Execution.Service.Gates.validate_binding sentry.Execution.Service.Gates.approval_denial
    sentry.Execution.Service.Gates.validate_approval sentry.Execution.Service.Gates.record_step
    sentry.Execution.StateMachine.transition sentry.Execution.StateMachine.can_transition
    sentry.Risk.Engine.evaluate sentry.Risk.Engine.decide sentry.Risk.Engine.failed
    sentry.Risk.Engine.passed sentry.Risk.Engine.identity_outcomes sentry.Risk.Engine.entry_outcomes
    sentry.Domain.Trade.max_loss sentry.Domain.Trade.is_valid_for
    sentry.Safety.RuntimeState.permits_new_entry
    sentry.Safety.RuntimeState.permits_risk_reducing_exit sentry.Safety.RuntimeState.run
    sentry.Execution.Service.History.step sentry.Execution.Service.Placement.default_arguments
    sentry.Execution.Service.Placement.require_reconciliation
    sentry.Execution.Service.Placement.assess sentry.Execution.Service.Placement.broker_review
    sentry.Execution.Service.Placement.gather sentry.Execution.Service.Placement.order_intent
    sentry.Execution.Service.Placement.place_command
    sentry.Execution.Service.Placement.pending_order sentry.Execution.Service.Placement.persist
    sentry.Execution.Service.Placement.risk_denial sentry.Execution.Service.Placement.local_gate
    sentry.Execution.Service.Placement.record_observed
    sentry.Execution.Service.Placement.settle_placement sentry.Execution.Service.Placement.submit
    sentry.Execution.Service.Placement.execute sentry.Execution.Service.Cancellation.cancel_denial
    sentry.Execution.Service.Cancellation.cancel_intent
    sentry.Execution.Service.Cancellation.cancel_command
    sentry.Execution.Service.Cancellation.admit_cancellation
    sentry.Execution.Service.Cancellation.settle_cancellation
    sentry.Execution.Service.Cancellation.transmit_cancellation
    sentry.Execution.Service.Cancellation.send_cancellation
    sentry.Execution.Service.Cancellation.cancel_order
two_sent = refl

run-IsRecorded_example :
    All
      (λ x. IsRecorded (run world calls (new normal)).store x.command)
      (run world calls (new normal)).sent
run-IsRecorded_example = run-IsRecorded world calls normal

run-AllDifferent_example : AllDifferent (run world calls (new normal)).sent
run-AllDifferent_example = run-AllDifferent world calls normal

run-IsAuthorized_example :
    All (IsAuthorized world (AskedIn calls)) (run world calls (new normal)).sent
run-IsAuthorized_example = run-IsAuthorized world calls normal

run-IsAllowed_example : All IsAllowed (run world calls (new normal)).store.transitions
run-IsAllowed_example = run-IsAllowed world calls normal

abbrev intent : OrderIntent
intent = record {
  intent_id = 1113;
  created_at = 100;
  environment = ExecutionEnvironment.demo;
  namespace = 1;
  proposal_id = 13;
  risk_decision_id = 300;
  approval_id = none;
  review_id = 60;
  order_fingerprint = 13;
  idempotency_key = 1013;
  action = BrokerAction.place_option_order;
}

-- A service that has placed an order.
abbrev with_order : BrokerOrder → ServiceState
with_order order = record {
  store = record {
    risk_decisions = [];
    reviews = [];
    order_intents = (1113, intent) ∷ [];
    command_intents = [];
    orders = (1113, order) ∷ [];
    fills = [];
    positions = [];
    reconciliations = [];
    transitions = [];
    negative_reconciliations = [];
    audit_sequence = [];
    fingerprints = (13, 1113) ∷ [];
    idempotency_keys = (1013, 1113) ∷ [];
  };
  safety = normal;
  interrupted_write_intents = [];
  turn = 0;
  sent = [];
}

abbrev partly_filled : BrokerOrder
partly_filled = record placed { state = OrderState.partial; filled_quantity = 1 }

abbrev update : Result ⊤ × ServiceState
update = record_broker_update world partly_filled [] [] false (with_order placed)

update_accepted : update ≡ (ok tt, update.1)
unfolding record_broker_update sentry.Execution.Service.State.◌>>=◌
    sentry.Execution.Service.State.stored sentry.Execution.Store.get_order
    sentry.Execution.Service.State.gets sentry.Execution.Store.record_transition
    sentry.Execution.Store.save_order sentry.Execution.Service.State.pure
    sentry.Execution.Store.replace_positions
update_accepted = refl

record_broker_update-exact_example :
    ((local : BrokerOrder) × (lookup 1113 (with_order placed).store.orders ≡ some local)
      × IsExactUpdate world partly_filled local false)
    × (lookup 1113 update.1.store.orders ≡ some partly_filled)
record_broker_update-exact_example =
    record_broker_update-exact world partly_filled [] [] false (with_order placed) update.1
      update_accepted

abbrev unknown : BrokerOrder
unknown = record placed { state = OrderState.submission_unknown }

abbrev reconciled : Result SubmissionReconciliation × ServiceState
reconciled = reconcile_submission world 1113 (with_order unknown)

abbrev retry : SubmissionReconciliation
retry = record {
  intent_id = 1113;
  matched_order = none;
  broker_report = report;
  negative_match_proven = true;
  retry_permitted = true;
}

retry_permitted : reconciled ≡ (ok retry, reconciled.1)
unfolding reconcile_submission sentry.Execution.Service.State.◌>>=◌
    sentry.Execution.Service.State.stored sentry.Execution.Store.get_order
    sentry.Execution.Service.State.raise_if sentry.Execution.Service.State.pure
    sentry.Execution.Service.State.await sentry.Execution.Store.save_reconciliation
    sentry.Execution.Store.get_order_intent sentry.Execution.Store.record_negative_reconciliation
retry_permitted = refl

reconcile_submission-proves_example :
    (true ≡ true → IsAbsent world 1113 report reconciled.1)
    × ((match : BrokerOrder)
        → none ≡ some match
        → IsMatch world 1113 (with_order unknown).store.orders match reconciled.1)
reconcile_submission-proves_example =
    reconcile_submission-proves world 1113 (with_order unknown) reconciled.1 retry retry_permitted

abbrev live_world : World
live_world = record world { environment = ExecutionEnvironment.live }

abbrev live_entry : TradeProposal
live_entry = record entry { environment = ExecutionEnvironment.live }

execute-duplicate_example :
    ((execute world entry none (with_order unknown)).0 ≡ err Error.submission_unknown)
    × ((execute world entry none (with_order unknown)).1.store ≡ (with_order unknown).store)
    × ((execute world entry none (with_order unknown)).1.sent ≡ [])
execute-duplicate_example =
    execute-duplicate world entry none 1113 intent (with_order unknown) refl refl refl refl refl
      refl

-- ===== src/Execution/Service/Cancellation.antt =====
-- app/execution/service.py: `cancel_order` and `_cancel_order`.
use sentry.Prelude.{
  ⊤, Bool, true, false, not, ◌&&◌, ◌||◌, ◌-◌, max, Option, none, some, if◌then◌else◌,
}
use sentry.Domain.Enums.{OrderState, BrokerAction, same_environment, is_live}
use sentry.Domain.Market.{Label, AccountSnapshot}
use sentry.Domain.Order.{OrderIntent, BrokerCommandIntent, BrokerOrder, Arguments}
use sentry.Safety.RuntimeState.{permits_risk_reducing_exit}
use sentry.Broker.Capabilities.{descriptor_for_action}
use sentry.Execution.Error.{Denial, Error, Result, ok, err}
use sentry.Execution.Store.{
  TransitionReason, save_order_intent, save_command_intent, save_order, find_intent_by_fingerprint,
  get_order_intent, get_command_for_order_intent,
}
use sentry.Execution.Service.State.{
  World, ServiceState, Action, pure, raise, gets, attempt, ◌>>=◌, ◌>>◌, raise_if, deny_if, check,
  stored, await, transmit,
}
use sentry.Execution.Service.Gates.{deny_interrupted_writes, record_step}
use sentry.Execution.Service.Placement.{
  deny_duplicate, require_reconciliation, require_capability, deny_external, observed_id,
  failed_write, record_observed,
}

pub record CancellationResult : Type 0 where
  pub order_intent : OrderIntent
  pub command_intent : BrokerCommandIntent
  pub broker_order : BrokerOrder

abbrev pub is_open : OrderState → Bool
is_open OrderState.opened = true
is_open OrderState.partial = true
is_open _ = false

-- The records that the target's placement left.
pub record Original : Type 0 where
  pub intent : OrderIntent
  pub command : BrokerCommandIntent

module _ (w : World) where
  -- The health and safety test, which stands twice in `_cancel_order`.
  unfoldable pub cancel_denial : Denial → Denial → ServiceState → Option Denial
  unfolding permits_risk_reducing_exit
  cancel_denial unhealthy unsafe s =
      if w.kill_switch_active s.turn || not (w.healthcheck s.turn)
      then some unhealthy
      else if not (permits_risk_reducing_exit s.safety)
      then some unsafe
      else none

  abbrev pub require_original : Option OrderIntent → Option BrokerCommandIntent → Action Original
  require_original none _ = raise (Error.denied Denial.no_intent_evidence)
  require_original (some intent) none = raise (Error.denied Denial.no_intent_evidence)
  require_original (some intent) (some command) =
      pure (record { intent = intent; command = command })

  -- `target.broker_order_id or str(target.order_id)`
  abbrev pub target_id : BrokerOrder → Label
  target_id target = elim target.broker_order_id [ none ↦ w.text_of target.order_id | some id ↦ id ]

  unfoldable pub cancel_intent : BrokerOrder → Original → Label → Action OrderIntent
  cancel_intent target original fingerprint =
      let key = w.idempotency_key w.namespace fingerprint BrokerAction.cancel_option_order in
      gets (λ s. record {
        intent_id = w.intent_id BrokerAction.cancel_option_order w.environment w.namespace key;
        created_at = w.now s.turn;
        environment = w.environment;
        namespace = w.namespace;
        proposal_id = original.intent.proposal_id;
        risk_decision_id = original.intent.risk_decision_id;
        approval_id = none;
        review_id = original.intent.review_id;
        order_fingerprint = fingerprint;
        idempotency_key = key;
        action = BrokerAction.cancel_option_order;
      })

  unfoldable pub cancel_command :
      BrokerOrder
      → Original
      → OrderIntent
      → AccountSnapshot
      → AccountSnapshot
      → Action BrokerCommandIntent
  unfolding descriptor_for_action
  cancel_command target original intent account observed = do
    capabilities ← await w w.capabilities
    capability ←
        require_capability w capabilities.cancel_option_orders
          (descriptor_for_action BrokerAction.cancel_option_order capabilities.descriptors)
    deny_external w (not (is_live w.environment) && capabilities.external_writes_enabled)
    let arguments = Arguments.cancellation (target_id target) intent.idempotency_key
    raise_if (not (w.validate capability arguments)) Error.invalid_arguments
    gets (λ s. record {
      command_intent_id = w.command_id intent.intent_id capability.schema_hash;
      created_at = w.now s.turn;
      order_intent_id = intent.intent_id;
      environment = w.environment;
      namespace = w.namespace;
      action = BrokerAction.cancel_option_order;
      capability_name = capability.tool_name;
      capability_schema_version = capability.schema_version;
      capability_schema_hash = capability.schema_hash;
      instrument_id = target.contract.instrument_id;
      side = target.side;
      quantity = max 1 (target.quantity - target.filled_quantity);
      limit_price = target.limit_price;
      is_day = true;
      validated_arguments = arguments;
      proposal_id = original.command.proposal_id;
      risk_decision_id = original.command.risk_decision_id;
      approval_id = none;
      quote_snapshot_id = original.command.quote_snapshot_id;
      broker_observed_account_snapshot_id = observed_id w observed;
      effective_account_snapshot_id = account.snapshot_id;
      policy_version = original.command.policy_version;
      order_fingerprint = intent.order_fingerprint;
      idempotency_key = intent.idempotency_key;
    })

  -- The checks above the first record of the cancellation.
  unfoldable pub admit_cancellation : BrokerOrder → Action Original
  unfolding deny_interrupted_writes cancel_denial
  admit_cancellation target = do
    deny_interrupted_writes w
    deny_if (not (same_environment target.environment w.environment)) Denial.target_environment
    deny_if (not (is_open target.state)) Denial.target_not_open
    check (cancel_denial Denial.cancel_preflight Denial.exits_blocked)
    intent ← stored w (get_order_intent target.intent_id)
    command ← stored w (get_command_for_order_intent target.intent_id)
    require_original intent command

  abbrev pub refuse_cancellation : BrokerOrder → Option Denial → Action ⊤
  refuse_cancellation pending none = pure tt
  refuse_cancellation pending (some why) = do
    stored w (save_order (record pending { state = OrderState.rejected }))
    record_step w pending.intent_id OrderState.submitting OrderState.rejected
        TransitionReason.cancellation_denied false
    raise (Error.denied why)

  -- The `except` clauses of the cancellation.
  abbrev failed_cancellation : BrokerOrder → Error → Action BrokerOrder
  failed_cancellation pending = failed_write w pending TransitionReason.cancellation_unknown

  unfoldable pub settle_cancellation : BrokerOrder → Result BrokerOrder → Action BrokerOrder
  unfolding failed_write record_observed
  settle_cancellation pending (err e) = failed_cancellation pending e
  settle_cancellation pending (ok result) =
      record_observed w pending (record result { intent_id = pending.intent_id })
        TransitionReason.cancellation_observed

  -- The last test, the write, and its outcome.
  unfoldable pub transmit_cancellation :
      BrokerOrder → BrokerCommandIntent → BrokerOrder → Action BrokerOrder
  unfolding cancel_denial settle_cancellation
  transmit_cancellation target command pending = do
    denial ← gets (cancel_denial Denial.cancel_safety_changed Denial.cancel_safety_changed)
    refuse_cancellation pending denial
    answer ← attempt (transmit w command (λ t. w.cancel_option_order t command (target_id target)))
    settle_cancellation pending answer

  -- `_cancel_order` once its intent is stored.
  unfoldable pub send_cancellation :
      BrokerOrder
      → Original
      → OrderIntent
      → AccountSnapshot
      → AccountSnapshot
      → Action CancellationResult
  unfolding cancel_command transmit_cancellation record_step
  send_cancellation target original intent account observed = do
    command ← cancel_command target original intent account observed
    stored w (save_command_intent command)
    let pending = record target { intent_id = intent.intent_id; state = OrderState.submitting }
    stored w (save_order pending)
    record_step w intent.intent_id OrderState.intent_persisted OrderState.submitting
        TransitionReason.cancellation_ready false
    result ← transmit_cancellation target command pending
    pure (record { order_intent = intent; command_intent = command; broker_order = result })

  unfoldable pub cancel_order : BrokerOrder → Action CancellationResult
  unfolding admit_cancellation require_reconciliation cancel_intent send_cancellation
  cancel_order target = do
    original ← admit_cancellation target
    account ← await w w.effective_account
    observed ← await w w.observed_account
    require_reconciliation w
    let fingerprint = w.cancel_fingerprint w.namespace (target_id target) target.intent_id
    duplicate ← stored w (find_intent_by_fingerprint fingerprint)
    deny_duplicate w duplicate
    intent ← cancel_intent target original fingerprint
    stored w (save_order_intent intent)
    send_cancellation target original intent account observed

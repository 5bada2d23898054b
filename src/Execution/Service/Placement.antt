-- ===== src/Execution/Service/Placement.antt =====
-- app/execution/service.py: `execute`, `_execute` and `execute_entry`. The lock of the service makes
-- placements and cancellations follow one another.
use sentry.Prelude.{⊤, Bool, true, false, not, ◌&&◌, ◌||◌, Option, none, some, ◌==◌, if◌then◌else◌}
use sentry.Domain.Enums.{
  TradingMode, OrderState, BrokerAction, same_environment, is_live, is_buy, same_mode, is_unknown,
  is_broker_observed,
}
use sentry.Domain.Market.{Uuid, AccountSnapshot, OptionQuote}
use sentry.Domain.Trade.{
  TradeProposal, ExactApproval, RiskDecision, BrokerReview, order_fingerprint,
}
use sentry.Domain.Order.{OrderIntent, BrokerCommandIntent, BrokerOrder, Arguments}
use sentry.Risk.Engine.{RiskRule, evaluate}
use sentry.Broker.Capabilities.{CapabilityDescriptor, descriptor_for_action}
use sentry.Execution.Error.{Denial, Error, Result, ok, err, is_unresolved, is_denial}
use sentry.Execution.Store.{
  TransitionReason, save_risk_decision, save_review, save_order_intent, save_command_intent,
  save_order, save_reconciliation, find_intent_by_fingerprint, get_order,
}
use sentry.Execution.Service.State.{
  World, ServiceState, Action, pure, raise, gets, attempt, ◌>>=◌, ◌>>◌, raise_if, deny_if, check,
  emergency_stop, stored, await, transmit,
}
use sentry.Execution.Service.Gates.{
  preflight, validate_binding, validate_approval, record_step, record_interrupted_write,
  unresolved_submission, uncorrelated_order, external_authority,
}

pub record ExecutionResult : Type 0 where
  pub order_intent : OrderIntent
  pub command_intent : BrokerCommandIntent
  pub risk_decision : RiskDecision RiskRule
  pub review : BrokerReview
  pub broker_order : BrokerOrder

-- The local variables that the later parts of `_execute` read.
pub record Evidence : Type 0 where
  pub mode : TradingMode
  pub observed_account : AccountSnapshot
  pub effective_account : AccountSnapshot
  pub quote : OptionQuote
  pub decision_id : Uuid
  pub risk : RiskDecision RiskRule
  pub review : BrokerReview

-- `_default_arguments`
unfoldable pub default_arguments : TradeProposal → Uuid → Arguments
default_arguments p key =
    Arguments.placement p.contract.instrument_id p.side p.quantity p.limit_price key

abbrev pub approval_id : Option ExactApproval → Option Uuid
approval_id none = none
approval_id (some a) = some a.approval_id

abbrev pub unresolved : Option BrokerOrder → Bool
unresolved none = false
unresolved (some order) = is_unknown order.state

module _ (w : World) where
  abbrev pub deny_duplicate : Option OrderIntent → Action ⊤
  deny_duplicate none = pure tt
  deny_duplicate (some duplicate) = do
    order ← stored w (get_order duplicate.intent_id)
    raise (if unresolved order then Error.submission_unknown else Error.duplicate_order)

  -- The broker's reconciliation, stored before it is judged.
  unfoldable pub require_reconciliation : Action ⊤
  require_reconciliation = do
    report ← await w w.reconcile
    stored w (save_reconciliation w.report_marker report)
    deny_if (not report.successful) Denial.reconciliation_incomplete

  -- The risk engine's decision, stored before it is judged.
  unfoldable pub assess :
      TradeProposal → AccountSnapshot → OptionQuote → Denial → Action (Uuid × RiskDecision RiskRule)
  unfolding evaluate
  assess p account quote why = do
    risk ← gets (λ s. evaluate w.risk_engine (w.now s.turn) p account quote)
    decision_id ← gets (λ s. w.decision_id s.turn)
    stored w (save_risk_decision decision_id risk)
    deny_if (not risk.allowed) why
    pure (decision_id, risk)

  unfoldable pub broker_review : TradeProposal → Action BrokerReview
  broker_review p = do
    review ← await w (λ t. w.review_option_order t p)
    stored w (save_review review)
    deny_if (not review.side_effect_free) Denial.review_side_effect
    deny_if (not review.accepted) Denial.review_rejected
    pure review

  -- `_execute` up to its first check of the approval, and its second round of the same checks.
  unfoldable pub gather : TradeProposal → Option ExactApproval → Action Evidence
  unfolding require_reconciliation assess broker_review
  gather p approval = do
    mode ← gets (λ s. w.trading_mode s.turn)
    validate_binding w p
    duplicate ← stored w (find_intent_by_fingerprint (order_fingerprint w.sha256_json p))
    deny_duplicate duplicate
    preflight w p mode
    account ← await w w.effective_account
    observed ← await w w.observed_account
    require_reconciliation
    quote ← await w (λ t. w.option_quote t p.contract.instrument_id)
    assess p account quote Denial.risk_denied
    review ← broker_review p
    validate_approval w p mode approval
    quote' ← await w (λ t. w.option_quote t p.contract.instrument_id)
    account' ← await w w.effective_account
    decided ← assess p account' quote' Denial.risk_denied_after_review
    current ← gets (λ s. w.trading_mode s.turn)
    deny_if (not (same_mode current mode)) Denial.mode_changed
    preflight w p mode
    validate_approval w p mode approval
    pure (record {
      mode = mode;
      observed_account = observed;
      effective_account = account';
      quote = quote';
      decision_id = decided.0;
      risk = decided.1;
      review = review;
    })

  unfoldable pub order_intent : TradeProposal → Option ExactApproval → Evidence → Action OrderIntent
  order_intent p approval e =
      let fingerprint = order_fingerprint w.sha256_json p in
      let key = w.idempotency_key w.namespace fingerprint BrokerAction.place_option_order in
      gets (λ s. record {
        intent_id = w.intent_id BrokerAction.place_option_order w.environment w.namespace key;
        created_at = w.now s.turn;
        environment = w.environment;
        namespace = w.namespace;
        proposal_id = p.proposal_id;
        risk_decision_id = e.decision_id;
        approval_id = approval_id approval;
        review_id = e.review.review_id;
        order_fingerprint = fingerprint;
        idempotency_key = key;
        action = BrokerAction.place_option_order;
      })

  -- The capability that the action needs; `ready` is the second half of the test.
  abbrev pub require_capability : Bool → Option CapabilityDescriptor → Action CapabilityDescriptor
  require_capability ready none = raise (Error.denied Denial.no_capability)
  require_capability true (some capability) = pure capability
  require_capability false (some capability) = raise (Error.denied Denial.no_capability)

  -- DEMO never uses a broker that may write outside.
  abbrev pub deny_external : Bool → Action ⊤
  deny_external true = do
    emergency_stop external_authority
    raise (Error.denied Denial.external_demo)
  deny_external false = pure tt

  abbrev pub observed_id : AccountSnapshot → Option Uuid
  observed_id a = if is_broker_observed a.account_kind then some a.snapshot_id else none

  unfoldable pub place_command :
      TradeProposal → Option ExactApproval → Evidence → OrderIntent → Action BrokerCommandIntent
  unfolding descriptor_for_action
  place_command p approval e intent = do
    capabilities ← await w w.capabilities
    capability ←
        require_capability capabilities.execution_ready
          (descriptor_for_action BrokerAction.place_option_order capabilities.descriptors)
    deny_external (not (is_live w.environment) && capabilities.external_writes_enabled)
    raise_if (not (w.validate capability (w.argument_builder p intent.idempotency_key)))
        Error.invalid_arguments
    gets (λ s. record {
      command_intent_id = w.command_id intent.intent_id capability.schema_hash;
      created_at = w.now s.turn;
      order_intent_id = intent.intent_id;
      environment = w.environment;
      namespace = w.namespace;
      action = BrokerAction.place_option_order;
      capability_name = capability.tool_name;
      capability_schema_version = capability.schema_version;
      capability_schema_hash = capability.schema_hash;
      instrument_id = p.contract.instrument_id;
      side = p.side;
      quantity = p.quantity;
      limit_price = p.limit_price;
      is_day = true;
      validated_arguments = w.argument_builder p intent.idempotency_key;
      proposal_id = p.proposal_id;
      risk_decision_id = e.decision_id;
      approval_id = approval_id approval;
      quote_snapshot_id = e.quote.snapshot_id;
      broker_observed_account_snapshot_id = observed_id e.observed_account;
      effective_account_snapshot_id = e.effective_account.snapshot_id;
      policy_version = p.policy_version;
      order_fingerprint = intent.order_fingerprint;
      idempotency_key = intent.idempotency_key;
    })

  unfoldable pub pending_order : TradeProposal → OrderIntent → Action BrokerOrder
  pending_order p intent = gets (λ s. record {
    order_id = w.pending_id intent.intent_id;
    broker_order_id = none;
    intent_id = intent.intent_id;
    environment = w.environment;
    state = OrderState.submitting;
    contract = p.contract;
    side = p.side;
    quantity = p.quantity;
    filled_quantity = 0;
    limit_price = p.limit_price;
    average_fill_price = none;
    submitted_at = some (w.now s.turn);
  })

  -- What stands in the store before the broker is asked: intent, command, order, transition.
  unfoldable pub persist :
      OrderIntent → BrokerCommandIntent → BrokerOrder → TransitionReason → Action ⊤
  persist intent command pending why = do
    stored w (save_order_intent intent)
    stored w (save_command_intent command)
    stored w (save_order pending)
    record_step w intent.intent_id OrderState.intent_persisted OrderState.submitting why false

  unfoldable pub risk_denial :
      TradeProposal → AccountSnapshot → OptionQuote → ServiceState → Option Denial
  unfolding evaluate
  risk_denial p account quote s =
      if (evaluate w.risk_engine (w.now s.turn) p account quote).allowed
      then none
      else some Denial.risk_expired

  -- The `try` of the last checks, all in the turn of the write that follows.
  unfoldable pub local_gate : TradeProposal → Option ExactApproval → Evidence → Action ⊤
  unfolding risk_denial
  local_gate p approval e = do
    current ← gets (λ s. w.trading_mode s.turn)
    deny_if (not (same_mode current e.mode)) Denial.mode_changed
    preflight w p current
    validate_approval w p current approval
    check (risk_denial p e.effective_account e.quote)

  abbrev pub refuse : BrokerOrder → Bool → Error → Action ⊤
  refuse pending true e = do
    stored w (save_order (record pending { state = OrderState.rejected }))
    record_step w pending.intent_id OrderState.submitting OrderState.rejected
        TransitionReason.locally_denied false
    raise e
  refuse pending false e = raise e

  -- `except ExecutionDenied`
  abbrev pub after_gate : BrokerOrder → Result ⊤ → Action ⊤
  after_gate pending (ok a) = pure tt
  after_gate pending (err e) = refuse pending (is_denial e) e

  -- The store of an order that the broker returned, unless the task is cancelled.
  abbrev pub observed : BrokerOrder → BrokerOrder → Result ⊤ → Action BrokerOrder
  observed pending order (ok a) = pure order
  observed pending order (err Error.canceled) = do
    record_interrupted_write w pending TransitionReason.canceled_after order
    raise Error.canceled
  observed pending order (err e) = raise e

  unfoldable pub record_observed : BrokerOrder → BrokerOrder → TransitionReason → Action BrokerOrder
  record_observed pending order why = do
    outcome ← attempt (
        stored w (save_order order)
        >> record_step w pending.intent_id OrderState.submitting order.state why false)
    observed pending order outcome

  -- The outcome of a write that may have been accepted, in LIVE; the exception itself elsewhere.
  abbrev pub unknown_outcome : BrokerOrder → TransitionReason → Bool → Error → Action BrokerOrder
  unknown_outcome pending why true e = do
    emergency_stop unresolved_submission
    stored w (save_order (record pending { state = OrderState.submission_unknown }))
    record_step w pending.intent_id OrderState.submitting OrderState.submission_unknown why false
    raise Error.submission_unknown
  unknown_outcome pending why false e = raise e

  -- The `except` clauses round a write.
  unfoldable pub failed_write : BrokerOrder → TransitionReason → Error → Action BrokerOrder
  failed_write pending why Error.canceled = do
    record_interrupted_write w pending TransitionReason.canceled_during pending
    raise Error.canceled
  failed_write pending why e =
      unknown_outcome pending why (is_unresolved e && is_live w.environment) e

  abbrev pub deny_uncorrelated : Bool → Action BrokerOrder
  deny_uncorrelated true = do emergency_stop uncorrelated_order; raise Error.submission_unknown
  deny_uncorrelated false = raise Error.safety_critical

  -- The `except` clauses of the placement.
  abbrev failed_placement : BrokerOrder → Error → Action BrokerOrder
  failed_placement pending = failed_write pending TransitionReason.maybe_accepted

  unfoldable pub settle_placement : BrokerOrder → Result BrokerOrder → Action BrokerOrder
  unfolding failed_write record_observed
  settle_placement pending (err e) = failed_placement pending e
  settle_placement pending (ok order) =
      if not (order.intent_id == pending.intent_id)
        || not (same_environment order.environment w.environment)
      then deny_uncorrelated (is_live w.environment)
      else record_observed pending order TransitionReason.order_observed

  -- The last checks, the write, and its outcome.
  unfoldable pub submit :
      TradeProposal
      → Option ExactApproval
      → Evidence
      → BrokerCommandIntent
      → BrokerOrder
      → Action BrokerOrder
  unfolding local_gate settle_placement
  submit p approval e command pending = do
    gated ← attempt (local_gate p approval e)
    after_gate pending gated
    answer ← attempt (transmit w command (λ t. w.place_option_order t command p.contract))
    settle_placement pending answer

  unfoldable pub execute : TradeProposal → Option ExactApproval → Action ExecutionResult
  unfolding gather order_intent place_command pending_order persist submit
  execute p approval = do
    e ← gather p approval
    intent ← order_intent p approval e
    command ← place_command p approval e intent
    pending ← pending_order p intent
    persist intent command pending TransitionReason.command_ready
    order ← submit p approval e command pending
    pure (record {
      order_intent = intent;
      command_intent = command;
      risk_decision = e.risk;
      review = e.review;
      broker_order = order;
    })

  unfoldable pub execute_entry : TradeProposal → Option ExactApproval → Action ExecutionResult
  unfolding execute
  execute_entry p approval = do deny_if (not (is_buy p.side)) Denial.buy_only; execute p approval

-- ===== src/Execution/Service/Gates.antt =====
-- app/execution/service.py: the checks of `ExecutionService`, its `_transition`, and what it records
-- when a write is interrupted.
use sentry.Prelude.{
  ⊤, Bool, true, false, not, ◌&&◌, ◌||◌, Option, none, some, ◌==◌, ltb, if◌then◌else◌, is_empty,
}
use sentry.Domain.Enums.{TradingMode, OrderState, same_environment, is_live, is_buy, same_mode}
use sentry.Domain.Market.{Uuid, Time}
use sentry.Domain.Trade.{TradeProposal, ExactApproval, is_valid_for}
use sentry.Domain.Order.{BrokerOrder}
use sentry.Safety.RuntimeState.{Reason, permits_new_entry, permits_risk_reducing_exit}
use sentry.Execution.Error.{Denial, Error, Result, ok, err}
use sentry.Execution.StateMachine.{transition}
use sentry.Execution.Store.{TransitionReason, save_order, record_transition}
use sentry.Execution.Service.State.{
  World, ServiceState, Action, pure, raise, gets, attempt, ◌>>=◌, ◌>>◌, deny_if, check, latch,
  emergency_stop, stored,
}

-- The texts given to the safety controller, as reasons.
abbrev pub interrupted_write : Reason
interrupted_write = Reason.given 0

abbrev pub audit_incomplete : Reason
audit_incomplete = Reason.given 1

abbrev pub unresolved_submission : Reason
unresolved_submission = Reason.given 2

abbrev pub uncorrelated_order : Reason
uncorrelated_order = Reason.given 3

abbrev pub external_authority : Reason
external_authority = Reason.given 4

abbrev pub is_research : TradingMode → Bool
is_research mode = same_mode mode TradingMode.research

module _ (w : World) where
  abbrev pub deny_latched : Bool → Action ⊤
  deny_latched true = do
    emergency_stop interrupted_write
    raise (Error.denied Denial.interrupted_latch)
  deny_latched false = pure tt

  unfoldable pub deny_interrupted_writes : Action ⊤
  deny_interrupted_writes = do
    latched ← gets (λ s. not (is_empty s.interrupted_write_intents))
    deny_latched latched

  -- `_preflight` below its first call. The tests read the state of one moment.
  unfoldable pub preflight_denial : TradeProposal → TradingMode → ServiceState → Option Denial
  unfolding permits_new_entry permits_risk_reducing_exit
  preflight_denial p mode s =
      if is_live w.environment && same_mode mode TradingMode.shadow
      then some Denial.live_shadow
      else if is_research mode
      then some Denial.research_mode
      else if w.kill_switch_active s.turn
      then some Denial.kill_switch
      else if not (w.healthcheck s.turn)
      then some Denial.health
      else if is_buy p.side && not (permits_new_entry s.safety)
      then some Denial.entries_blocked
      else if not (is_buy p.side) && not (permits_risk_reducing_exit s.safety)
      then some Denial.exits_blocked
      else none

  unfoldable pub preflight : TradeProposal → TradingMode → Action ⊤
  unfolding deny_interrupted_writes preflight_denial check
  preflight p mode = do deny_interrupted_writes; check (preflight_denial p mode)

  unfoldable pub validate_binding : TradeProposal → Action ⊤
  validate_binding p =
      deny_if
        (not (same_environment p.environment w.environment) || not (p.namespace == w.namespace))
        Denial.binding

  abbrev pub approval_required : TradingMode → TradeProposal → Bool
  approval_required mode p =
      same_mode mode TradingMode.approval || same_mode mode TradingMode.exit_auto && is_buy p.side

  -- `approval is not None`, not from the future, and valid for the proposal
  abbrev pub approves : Option ExactApproval → TradeProposal → Time → Bool
  approves none p now = false
  approves (some a) p now = not (ltb now a.created_at) && is_valid_for w.sha256_json a p now

  unfoldable pub approval_denial :
      TradeProposal → TradingMode → Option ExactApproval → ServiceState → Option Denial
  unfolding is_valid_for
  approval_denial p mode approval s =
      if approval_required mode p && not (approves approval p (w.now s.turn))
      then some Denial.approval_missing
      else none

  unfoldable pub validate_approval : TradeProposal → TradingMode → Option ExactApproval → Action ⊤
  unfolding approval_denial check
  validate_approval p mode approval = check (approval_denial p mode approval)

  abbrev pub record_allowed :
      Uuid → OrderState → OrderState → TransitionReason → Bool → Option OrderState → Action ⊤
  record_allowed intent_id previous current why evidence none = raise Error.invalid_transition
  record_allowed intent_id previous current why evidence (some _) = do
    now ← gets (λ s. w.now s.turn)
    stored w (
        record_transition (record {
          intent_id = intent_id;
          previous = previous;
          current = current;
          reason = why;
          recorded_at = now;
          reconciliation_evidence = evidence;
        }))

  unfoldable pub record_step : Uuid → OrderState → OrderState → TransitionReason → Bool → Action ⊤
  unfolding transition
  record_step intent_id previous current why evidence =
      record_allowed intent_id previous current why evidence (transition previous current evidence)

  abbrev pub audited : Result ⊤ → Action ⊤
  audited (ok a) = pure tt
  audited (err e) = emergency_stop audit_incomplete

  -- `_record_interrupted_write`. Its deadline is one more way in which a store access may fail.
  unfoldable pub record_interrupted_write : BrokerOrder → TransitionReason → BrokerOrder → Action ⊤
  unfolding record_step
  record_interrupted_write pending why interrupted = do
    latch pending.intent_id
    emergency_stop interrupted_write
    outcome ← attempt (
        stored w (save_order (record interrupted { state = OrderState.submission_unknown }))
        >> record_step pending.intent_id OrderState.submitting OrderState.submission_unknown why
            false)
    audited outcome

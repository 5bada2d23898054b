-- ===== src/Execution/Service/Steps.antt =====
-- app/execution/service.py: the parts of a placement and of a cancellation before and after the
-- handing over of the command, and the whole of the other methods, are quiet.
use sentry.Prelude.{
  inl, inr, ⊤, Bool, true, false, not, Option, none, some, if◌then◌else◌, Bool-cases, ◌==◌, ◌||◌,
  ◌&&◌,
}
use sentry.Domain.Enums.{same_environment, is_live}
use sentry.Domain.Market.{AccountSnapshot, OptionQuote}
use sentry.Domain.Trade.{TradeProposal, ExactApproval}
use sentry.Domain.Order.{OrderIntent, BrokerOrder}
use sentry.Broker.Capabilities.{CapabilityDescriptor}
use sentry.Execution.Error.{Denial, Error, Result, ok, err, is_denial, is_unresolved}
use sentry.Execution.Store.{TransitionReason}
use sentry.Execution.Store.Methods.{method_rules}
use sentry.Execution.Service.State.{World, raise, ◌>>=◌}
use sentry.Execution.Service.Gates.{record_interrupted_write}
use sentry.Execution.Service.Placement.{
  Evidence, deny_duplicate, require_reconciliation, assess, broker_review, order_intent,
  require_capability, deny_external, local_gate, refuse, after_gate, observed, record_observed,
  unknown_outcome, failed_write, deny_uncorrelated, settle_placement,
}
use sentry.Execution.Service.Quiet.{IsQuiet, quiet_rules, raise-IsQuiet}
use sentry.Execution.Service.Parts.{
  preflight-IsQuiet, validate_approval-IsQuiet, record_step-IsQuiet,
  record_interrupted_write-IsQuiet,
}

module _ (w : World) where
  pub deny_duplicate-IsQuiet : (i : Option OrderIntent) → IsQuiet (deny_duplicate w i)
  deny_duplicate-IsQuiet none = search quiet_rules
  deny_duplicate-IsQuiet (some i) = search (quiet_rules, method_rules) depth 12

  pub require_reconciliation-IsQuiet : IsQuiet (require_reconciliation w)
  unfolding require_reconciliation
  require_reconciliation-IsQuiet = search (quiet_rules, method_rules) depth 12

  pub assess-IsQuiet :
      (p : TradeProposal) (a : AccountSnapshot) (q : OptionQuote) (why : Denial)
      → IsQuiet (assess w p a q why)
  unfolding assess
  assess-IsQuiet p a q why = search (quiet_rules, method_rules) depth 12

  pub broker_review-IsQuiet : (p : TradeProposal) → IsQuiet (broker_review w p)
  unfolding broker_review
  broker_review-IsQuiet p = search (quiet_rules, method_rules) depth 12

  pub order_intent-IsQuiet :
      (p : TradeProposal) (a : Option ExactApproval) (e : Evidence) → IsQuiet (order_intent w p a e)
  unfolding order_intent
  order_intent-IsQuiet p a e = search quiet_rules

  pub require_capability-IsQuiet :
      (ready : Bool) (d : Option CapabilityDescriptor) → IsQuiet (require_capability w ready d)
  require_capability-IsQuiet ready none = search quiet_rules
  require_capability-IsQuiet true (some d) = search quiet_rules
  require_capability-IsQuiet false (some d) = search quiet_rules

  pub deny_external-IsQuiet : (external : Bool) → IsQuiet (deny_external w external)
  deny_external-IsQuiet true = search quiet_rules
  deny_external-IsQuiet false = search quiet_rules

  pub local_gate-IsQuiet :
      (p : TradeProposal) (a : Option ExactApproval) (e : Evidence) → IsQuiet (local_gate w p a e)
  unfolding local_gate
  local_gate-IsQuiet p a e =
      search (quiet_rules, preflight-IsQuiet, validate_approval-IsQuiet) depth 12

  refuse-IsQuiet :
      (pending : BrokerOrder) (denial : Bool) (e : Error) → IsQuiet (refuse w pending denial e)
  refuse-IsQuiet pending true e = search (quiet_rules, method_rules, record_step-IsQuiet) depth 12
  refuse-IsQuiet pending false e = search quiet_rules

  pub after_gate-IsQuiet :
      (pending : BrokerOrder) (outcome : Result ⊤) → IsQuiet (after_gate w pending outcome)
  after_gate-IsQuiet pending (ok a) = search quiet_rules
  after_gate-IsQuiet pending (err e) = refuse-IsQuiet pending (is_denial e) e

  interrupted-IsQuiet :
      (pending order : BrokerOrder) (why : TransitionReason)
      → IsQuiet (
          record_interrupted_write w pending why order >>= λ _.
          raise {A = BrokerOrder} Error.canceled)
  interrupted-IsQuiet pending order why =
      search (quiet_rules, record_interrupted_write-IsQuiet) depth 12

  observed-IsQuiet :
      (pending order : BrokerOrder) (outcome : Result ⊤)
      → IsQuiet (observed w pending order outcome)
  observed-IsQuiet pending order (ok a) = search quiet_rules
  observed-IsQuiet pending order (err Error.canceled) =
      interrupted-IsQuiet pending order TransitionReason.canceled_after
  observed-IsQuiet pending order (err e) = raise-IsQuiet e

  pub record_observed-IsQuiet :
      (pending order : BrokerOrder) (why : TransitionReason)
      → IsQuiet (record_observed w pending order why)
  unfolding record_observed
  record_observed-IsQuiet pending order why =
      search (quiet_rules, method_rules, record_step-IsQuiet, observed-IsQuiet) depth 12

  unknown_outcome-IsQuiet :
      (pending : BrokerOrder) (why : TransitionReason) (unresolved : Bool) (e : Error)
      → IsQuiet (unknown_outcome w pending why unresolved e)
  unknown_outcome-IsQuiet pending why true e =
      search (quiet_rules, method_rules, record_step-IsQuiet) depth 12
  unknown_outcome-IsQuiet pending why false e = search quiet_rules

  pub failed_write-IsQuiet :
      (pending : BrokerOrder) (why : TransitionReason) (e : Error)
      → IsQuiet (failed_write w pending why e)
  unfolding failed_write
  failed_write-IsQuiet pending why Error.canceled =
      interrupted-IsQuiet pending pending TransitionReason.canceled_during
  failed_write-IsQuiet pending why e =
      unknown_outcome-IsQuiet pending why (is_unresolved e && is_live w.environment) e

  deny_uncorrelated-IsQuiet : (live : Bool) → IsQuiet (deny_uncorrelated w live)
  deny_uncorrelated-IsQuiet true = search quiet_rules
  deny_uncorrelated-IsQuiet false = search quiet_rules

  pub settle_placement-IsQuiet :
      (pending : BrokerOrder) (answer : Result BrokerOrder)
      → IsQuiet (settle_placement w pending answer)
  unfolding settle_placement
  settle_placement-IsQuiet pending (err e) =
      failed_write-IsQuiet pending TransitionReason.maybe_accepted e
  settle_placement-IsQuiet pending (ok order) =
      elim (Bool-cases (
        not (order.intent_id == pending.intent_id)
        || not (same_environment order.environment w.environment))) [
          | inl foreign ↦
              rw (foreign, if◌then◌else◌) (deny_uncorrelated-IsQuiet (is_live w.environment))
          | inr own ↦
              rw (own, if◌then◌else◌)
                (record_observed-IsQuiet pending order TransitionReason.order_observed)
        ]

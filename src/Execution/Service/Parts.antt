-- ===== src/Execution/Service/Parts.antt =====
-- app/execution/service.py: all the parts of the service's methods but the handing over of a command
-- are quiet.
use sentry.Prelude.{inl, inr, ⊤, Bool, true, false, Option, if◌then◌else◌, Bool-cases}
use sentry.Domain.Enums.{TradingMode, OrderState}
use sentry.Domain.Market.{Uuid}
use sentry.Domain.Trade.{TradeProposal, ExactApproval}
use sentry.Domain.Order.{BrokerOrder}
use sentry.Execution.Error.{Error, Result, ok, err}
use sentry.Execution.StateMachine.{transition, can_transition}
use sentry.Execution.Store.{TransitionReason}
use sentry.Execution.Store.Methods.{method_rules, record_transition-MethodGrows}
use sentry.Execution.Service.State.{World}
use sentry.Execution.Service.Gates.{
  deny_latched, deny_interrupted_writes, preflight, validate_binding, validate_approval,
  record_allowed, record_step, record_interrupted_write, audited,
}
use sentry.Execution.Service.Quiet.{
  IsQuiet, quiet_rules, gets-IsQuiet, stored-IsQuiet, raise-IsQuiet, bind-IsQuiet,
}

module _ (w : World) where
  deny_latched-IsQuiet : (latched : Bool) → IsQuiet (deny_latched w latched)
  deny_latched-IsQuiet true = search quiet_rules
  deny_latched-IsQuiet false = search quiet_rules

  pub deny_interrupted_writes-IsQuiet : IsQuiet (deny_interrupted_writes w)
  unfolding deny_interrupted_writes
  deny_interrupted_writes-IsQuiet = search (quiet_rules, deny_latched-IsQuiet)

  pub preflight-IsQuiet : (p : TradeProposal) (mode : TradingMode) → IsQuiet (preflight w p mode)
  unfolding preflight
  preflight-IsQuiet p mode = search (quiet_rules, deny_interrupted_writes-IsQuiet)

  pub validate_binding-IsQuiet : (p : TradeProposal) → IsQuiet (validate_binding w p)
  unfolding validate_binding
  validate_binding-IsQuiet p = search quiet_rules

  pub validate_approval-IsQuiet :
      (p : TradeProposal) (mode : TradingMode) (a : Option ExactApproval)
      → IsQuiet (validate_approval w p mode a)
  unfolding validate_approval
  validate_approval-IsQuiet p mode a = search quiet_rules

  pub record_step-IsQuiet :
      (id : Uuid) (previous current : OrderState) (why : TransitionReason) (evidence : Bool)
      → IsQuiet (record_step w id previous current why evidence)
  unfolding record_step transition
  record_step-IsQuiet id previous current why evidence =
      elim (Bool-cases (can_transition previous current evidence)) [
        | inl allowed ↦
            rw (allowed, if◌then◌else◌, record_allowed)
              (bind-IsQuiet _ _ (gets-IsQuiet _)
                (λ now. stored-IsQuiet w _ (record_transition-MethodGrows _ allowed)))
        | inr refused ↦
            rw (refused, if◌then◌else◌, record_allowed) (raise-IsQuiet Error.invalid_transition)
      ]

  pub audited-IsQuiet : (outcome : Result ⊤) → IsQuiet (audited w outcome)
  audited-IsQuiet (ok a) = search quiet_rules
  audited-IsQuiet (err e) = search quiet_rules

  pub record_interrupted_write-IsQuiet :
      (pending : BrokerOrder) (why : TransitionReason) (order : BrokerOrder)
      → IsQuiet (record_interrupted_write w pending why order)
  unfolding record_interrupted_write
  record_interrupted_write-IsQuiet pending why order =
      search (quiet_rules, method_rules, record_step-IsQuiet, audited-IsQuiet) depth 12

  pub ruleset part_rules = (
    preflight-IsQuiet, validate_binding-IsQuiet, validate_approval-IsQuiet, record_step-IsQuiet,
    record_interrupted_write-IsQuiet,
  )

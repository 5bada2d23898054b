-- ===== src/Execution/Service/History.antt =====
-- app/execution/service.py: histories of calls of `ExecutionService`, each with what it is given.
use sentry.Prelude.{Bool, Option, List, [], ◌∷◌}
use sentry.Domain.Market.{Uuid}
use sentry.Domain.Trade.{TradeProposal, ExactApproval}
use sentry.Domain.Order.{BrokerOrder, Fill, Position}
use sentry.Safety.RuntimeState
use sentry.Execution.Service.State.{World, ServiceState}
use sentry.Execution.Service.Placement.{execute, execute_entry}
use sentry.Execution.Service.Cancellation.{cancel_order}
use sentry.Execution.Service.Reconciliation.{reconcile_submission, record_broker_update}

-- `safety_call` is a call of another part on the safety controller, between two calls of the service.
pub data Call : Type 0 where
  execute_call entry_call : TradeProposal → Option ExactApproval → Call
  cancel_call : BrokerOrder → Call
  reconcile_call : Uuid → Call
  update_call : BrokerOrder → List Fill → List Position → (evidence : Bool) → Call
  safety_call : RuntimeState.Call → Call

-- The state after a call, whether it returns or raises.
unfoldable pub step : World → Call → ServiceState → ServiceState
unfolding execute execute_entry cancel_order reconcile_submission record_broker_update
    RuntimeState.apply
step w (Call.execute_call p approval) s = (execute w p approval s).1
step w (Call.entry_call p approval) s = (execute_entry w p approval s).1
step w (Call.cancel_call target) s = (cancel_order w target s).1
step w (Call.reconcile_call intent_id) s = (reconcile_submission w intent_id s).1
step w (Call.update_call order fills positions evidence) s =
    (record_broker_update w order fills positions evidence s).1
step w (Call.safety_call call) s = record s { safety = RuntimeState.apply call s.safety }

unfoldable pub run : World → List Call → ServiceState → ServiceState
unfolding step
run w [] s = s
run w (call ∷ calls) s = run w calls (step w call s)

-- ===== src/Execution/Service/Others.antt =====
-- app/execution/service.py: the parts of a cancellation round its transmission, the reconciliation of
-- a submission and the update by the broker are quiet.
use sentry.Prelude.{Bool, true, false, Option, none, some, List, [], ◌∷◌}
use sentry.Domain.Market.{Uuid, Label}
use sentry.Domain.Order.{OrderIntent, BrokerOrder, BrokerCommandIntent, Fill, Position}
use sentry.Execution.Error.{Denial, Result, ok, err}
use sentry.Execution.Store.{TransitionReason, ReconciliationReport}
use sentry.Execution.Store.Methods.{method_rules, save_fill-MethodGrows}
use sentry.Execution.Service.State.{World}
use sentry.Execution.Service.Cancellation.{
  Original, require_original, cancel_intent, admit_cancellation, refuse_cancellation,
  settle_cancellation,
}
use sentry.Execution.Service.Reconciliation.{
  conclude_absent, conclude_match, compare_match, use_report, require_unknown, reconcile_submission,
  save_fills, step_if, apply_update, with_local, record_broker_update, matches_exactly,
  update_denial,
}
use sentry.Execution.Service.Quiet.{IsQuiet, quiet_rules, bind-IsQuiet, stored-IsQuiet}
use sentry.Execution.Service.Parts.{record_step-IsQuiet, deny_interrupted_writes-IsQuiet}
use sentry.Execution.Service.Steps.{failed_write-IsQuiet, record_observed-IsQuiet}

module _ (w : World) where
  require_original-IsQuiet :
      (i : Option OrderIntent) (c : Option BrokerCommandIntent) → IsQuiet (require_original w i c)
  require_original-IsQuiet none c = search quiet_rules
  require_original-IsQuiet (some i) none = search quiet_rules
  require_original-IsQuiet (some i) (some c) = search quiet_rules

  pub admit_cancellation-IsQuiet : (target : BrokerOrder) → IsQuiet (admit_cancellation w target)
  unfolding admit_cancellation
  admit_cancellation-IsQuiet target =
      search (quiet_rules, method_rules, deny_interrupted_writes-IsQuiet, require_original-IsQuiet)
        depth 20

  pub cancel_intent-IsQuiet :
      (target : BrokerOrder) (original : Original) (fingerprint : Label)
      → IsQuiet (cancel_intent w target original fingerprint)
  unfolding cancel_intent
  cancel_intent-IsQuiet target original fingerprint = search quiet_rules

  pub refuse_cancellation-IsQuiet :
      (pending : BrokerOrder) (why : Option Denial) → IsQuiet (refuse_cancellation w pending why)
  refuse_cancellation-IsQuiet pending none = search quiet_rules
  refuse_cancellation-IsQuiet pending (some why) =
      search (quiet_rules, method_rules, record_step-IsQuiet) depth 12

  pub settle_cancellation-IsQuiet :
      (pending : BrokerOrder) (answer : Result BrokerOrder)
      → IsQuiet (settle_cancellation w pending answer)
  unfolding settle_cancellation
  settle_cancellation-IsQuiet pending (err e) =
      failed_write-IsQuiet w pending TransitionReason.cancellation_unknown e
  settle_cancellation-IsQuiet pending (ok order) =
      record_observed-IsQuiet w pending (record order { intent_id = pending.intent_id })
        TransitionReason.cancellation_observed

  conclude_absent-IsQuiet :
      (id : Uuid) (r : ReconciliationReport) (absent : Bool)
      → IsQuiet (conclude_absent w id r absent)
  conclude_absent-IsQuiet id r true = search (quiet_rules, method_rules) depth 12
  conclude_absent-IsQuiet id r false = search quiet_rules

  conclude_match-IsQuiet :
      (id : Uuid) (r : ReconciliationReport) (match : BrokerOrder) (exact : Bool)
      → IsQuiet (conclude_match w id r match exact)
  conclude_match-IsQuiet id r match true =
      search (quiet_rules, method_rules, record_step-IsQuiet) depth 12
  conclude_match-IsQuiet id r match false = search quiet_rules

  compare_match-IsQuiet :
      (id : Uuid) (r : ReconciliationReport) (local : BrokerOrder) (match : Option BrokerOrder)
      → IsQuiet (compare_match w id r local match)
  compare_match-IsQuiet id r local none =
      search (quiet_rules, method_rules, conclude_absent-IsQuiet) depth 12
  compare_match-IsQuiet id r local (some match) =
      conclude_match-IsQuiet id r match (matches_exactly w match local)

  use_report-IsQuiet :
      (id : Uuid) (r : ReconciliationReport) (local : BrokerOrder) (usable : Bool)
      → IsQuiet (use_report w id r local usable)
  use_report-IsQuiet id r local true = search (quiet_rules, compare_match-IsQuiet) depth 12
  use_report-IsQuiet id r local false = search quiet_rules

  require_unknown-IsQuiet : (found : Option BrokerOrder) → IsQuiet (require_unknown w found)
  require_unknown-IsQuiet none = search quiet_rules
  require_unknown-IsQuiet (some local) = search quiet_rules depth 12

  pub reconcile_submission-IsQuiet : (id : Uuid) → IsQuiet (reconcile_submission w id)
  unfolding reconcile_submission
  reconcile_submission-IsQuiet id =
      search (quiet_rules, method_rules, require_unknown-IsQuiet, use_report-IsQuiet) depth 20

  save_fills-IsQuiet : (fills : List Fill) → IsQuiet (save_fills w fills)
  unfolding save_fills
  save_fills-IsQuiet [] = search quiet_rules
  save_fills-IsQuiet (f ∷ fills) =
      bind-IsQuiet _ _ (stored-IsQuiet w _ (save_fill-MethodGrows f))
        (λ _. save_fills-IsQuiet fills)

  step_if-IsQuiet :
      (changed : Bool) (order local : BrokerOrder) (evidence : Bool)
      → IsQuiet (step_if w changed order local evidence)
  step_if-IsQuiet true order local evidence = search record_step-IsQuiet
  step_if-IsQuiet false order local evidence = search quiet_rules

  apply_update-IsQuiet :
      (order : BrokerOrder) (fills : List Fill) (positions : List Position) (evidence : Bool)
      (local : BrokerOrder) (denial : Option Denial)
      → IsQuiet (apply_update w order fills positions evidence local denial)
  apply_update-IsQuiet order fills positions evidence local (some why) = search quiet_rules
  apply_update-IsQuiet order fills positions evidence local none =
      search (quiet_rules, method_rules, step_if-IsQuiet, save_fills-IsQuiet) depth 12

  with_local-IsQuiet :
      (order : BrokerOrder) (fills : List Fill) (positions : List Position) (evidence : Bool)
      (local : Option BrokerOrder)
      → IsQuiet (with_local w order fills positions evidence local)
  with_local-IsQuiet order fills positions evidence none = search quiet_rules
  with_local-IsQuiet order fills positions evidence (some local) =
      apply_update-IsQuiet order fills positions evidence local
        (update_denial w order local fills positions)

  pub record_broker_update-IsQuiet :
      (order : BrokerOrder) (fills : List Fill) (positions : List Position) (evidence : Bool)
      → IsQuiet (record_broker_update w order fills positions evidence)
  unfolding record_broker_update
  record_broker_update-IsQuiet order fills positions evidence =
      search (quiet_rules, method_rules, with_local-IsQuiet) depth 12

-- ===== src/Execution/Service/Reconciliation.antt =====
-- app/execution/service.py: `reconcile_submission` and `record_broker_update`, which take no lock and
-- write nothing at the broker.
use sentry.Prelude.{
  ⊤, Bool, true, false, not, ◌&&◌, ◌||◌, Option, none, some, List, [], ◌∷◌, ◌==◌, ltb,
  if◌then◌else◌, any, elem,
}
use sentry.Domain.Enums.{OrderState, same_environment, same_side, same_state, is_unknown}
use sentry.Domain.Market.{Uuid, Label, same_contract}
use sentry.Domain.Order.{OrderIntent, BrokerOrder, Fill, Position}
use sentry.Execution.Error.{Denial, Error}
use sentry.Execution.Store.{
  ReconciliationReport, TransitionReason, save_reconciliation, save_order, save_fill,
  replace_positions, get_order, get_order_intent, record_negative_reconciliation,
}
use sentry.Execution.Service.State.{World, Action, pure, raise, ◌>>=◌, ◌>>◌, deny_if, stored, await}
use sentry.Execution.Service.Gates.{record_step}

pub record SubmissionReconciliation : Type 0 where
  pub intent_id : Uuid
  pub matched_order : Option BrokerOrder
  pub broker_report : ReconciliationReport
  pub negative_match_proven : Bool
  pub retry_permitted : Bool

-- The result that proves nothing.
abbrev pub unproven : Uuid → ReconciliationReport → SubmissionReconciliation
unproven intent_id report = record {
  intent_id = intent_id;
  matched_order = none;
  broker_report = report;
  negative_match_proven = false;
  retry_permitted = false;
}

-- `next((order for order in orders if order.intent_id == intent_id), None)`
unfoldable pub find_match : Uuid → List BrokerOrder → Option BrokerOrder
find_match intent_id [] = none
find_match intent_id (order ∷ rest) =
    if order.intent_id == intent_id then some order else find_match intent_id rest

abbrev pub lists_key : Label → Option (List Label) → Bool
lists_key key none = false
lists_key key (some confirmed) = elem key confirmed

-- Whether the report proves that the intent was not accepted.
unfoldable pub proves_absence : ReconciliationReport → Option OrderIntent → Bool
proves_absence report none = false
proves_absence report (some intent) =
    (elim report.order_history_complete [ some complete ↦ complete | none ↦ false ])
    && lists_key intent.idempotency_key report.negative_match_idempotency_keys

-- `state in {OrderState.SUBMITTING, OrderState.SUBMISSION_UNKNOWN}`
abbrev pub is_unsettled : OrderState → Bool
is_unsettled OrderState.submitting = true
is_unsettled OrderState.submission_unknown = true
is_unsettled _ = false

-- `order.state is not local.state or order.filled_quantity != local.filled_quantity`
abbrev pub is_changed : BrokerOrder → BrokerOrder → Bool
is_changed order local =
    not (same_state order.state local.state) || not (order.filled_quantity == local.filled_quantity)

module _ (w : World) where
  -- Whether the broker's order is the exact order of the intent, with a settled state.
  unfoldable pub matches_exactly : BrokerOrder → BrokerOrder → Bool
  matches_exactly match local =
      same_environment match.environment w.environment
      && same_contract match.contract local.contract
      && same_side match.side local.side
      && match.quantity == local.quantity
      && match.limit_price == local.limit_price
      && not (is_unsettled match.state)

  abbrev pub conclude_absent : Uuid → ReconciliationReport → Bool → Action SubmissionReconciliation
  conclude_absent intent_id report false = pure (unproven intent_id report)
  conclude_absent intent_id report true = do
    stored w (record_negative_reconciliation intent_id)
    pure (record (unproven intent_id report) {
      negative_match_proven = true;
      retry_permitted = true;
    })

  abbrev pub conclude_match :
      Uuid → ReconciliationReport → BrokerOrder → Bool → Action SubmissionReconciliation
  conclude_match intent_id report match false = pure (unproven intent_id report)
  conclude_match intent_id report match true = do
    stored w (save_order match)
    record_step w intent_id OrderState.submission_unknown match.state
        TransitionReason.reconciliation_matched true
    pure (record (unproven intent_id report) { matched_order = some match })

  abbrev pub compare_match :
      Uuid
      → ReconciliationReport
      → BrokerOrder
      → Option BrokerOrder
      → Action SubmissionReconciliation
  compare_match intent_id report local none = do
    intent ← stored w (get_order_intent intent_id)
    conclude_absent intent_id report (proves_absence report intent)
  compare_match intent_id report local (some match) =
      conclude_match intent_id report match (matches_exactly match local)

  abbrev pub use_report :
      Uuid → ReconciliationReport → BrokerOrder → Bool → Action SubmissionReconciliation
  use_report intent_id report local false = pure (unproven intent_id report)
  use_report intent_id report local true = do
    orders ← await w w.orders
    compare_match intent_id report local (find_match intent_id orders)

  -- The local order, if it is in SUBMISSION_UNKNOWN.
  abbrev pub require_unknown : Option BrokerOrder → Action BrokerOrder
  require_unknown none = raise (Error.denied Denial.not_unknown)
  require_unknown (some local) = do
    deny_if (not (is_unknown local.state)) Denial.not_unknown
    pure local

  unfoldable pub reconcile_submission : Uuid → Action SubmissionReconciliation
  unfolding find_match proves_absence matches_exactly record_step
  reconcile_submission intent_id = do
    found ← stored w (get_order intent_id)
    local ← require_unknown found
    report ← await w w.reconcile
    stored w (save_reconciliation w.report_marker report)
    use_report intent_id report local
        (report.successful && same_environment report.environment w.environment)

  -- `for fill in fills: await self._store.save_fill(fill)`
  unfoldable pub save_fills : List Fill → Action ⊤
  save_fills [] = pure tt
  save_fills (f ∷ fills) = do stored w (save_fill f); save_fills fills

  -- What the update must agree with.
  unfoldable pub update_denial :
      BrokerOrder → BrokerOrder → List Fill → List Position → Option Denial
  update_denial order local fills positions =
      if not (same_environment order.environment w.environment)
      then some Denial.update_environment
      else if not (order.order_id == local.order_id)
          || not (same_contract order.contract local.contract)
          || not (same_side order.side local.side)
          || not (order.quantity == local.quantity)
      then some Denial.update_not_exact
      else if ltb order.filled_quantity local.filled_quantity
      then some Denial.fills_decrease
      else if any (λ (f : Fill). not (f.order_id == order.order_id)) fills
      then some Denial.foreign_fill
      else if any (λ (p : Position). not (same_environment p.environment w.environment)) positions
      then some Denial.position_environment
      else none

  abbrev pub step_if : Bool → BrokerOrder → BrokerOrder → Bool → Action ⊤
  step_if true order local evidence =
      record_step w order.intent_id local.state order.state TransitionReason.update_observed
        evidence
  step_if false order local evidence = pure tt

  abbrev pub apply_update :
      BrokerOrder → List Fill → List Position → Bool → BrokerOrder → Option Denial → Action ⊤
  apply_update order fills positions evidence local (some why) = raise (Error.denied why)
  apply_update order fills positions evidence local none = do
    step_if (is_changed order local) order local evidence
    stored w (save_order order)
    save_fills fills
    stored w (replace_positions w.positions_marker positions)

  abbrev pub with_local :
      BrokerOrder → List Fill → List Position → Bool → Option BrokerOrder → Action ⊤
  with_local order fills positions evidence none = raise (Error.denied Denial.no_local_order)
  with_local order fills positions evidence (some local) =
      apply_update order fills positions evidence local (update_denial order local fills positions)

  unfoldable pub record_broker_update : BrokerOrder → List Fill → List Position → Bool → Action ⊤
  unfolding update_denial save_fills record_step
  record_broker_update order fills positions evidence = do
    local ← stored w (get_order order.intent_id)
    with_local order fills positions evidence local

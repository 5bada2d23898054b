-- ===== src/Execution/Store.antt =====
-- app/execution/service.py: `InMemoryExecutionStore`, the reference store of the execution service,
-- with `ReconciliationReport` of app/broker/base.py and `StateTransitionRecord`. Each method runs
-- under the store's lock, so it is one step.
pub mod Grows
pub mod Methods
pub mod Saves
use sentry.Prelude.{
  ℕ, ⊤, Bool, false, not, Option, none, some, List, [], ◌∷◌, ◌++◌, ◌==◌, if◌then◌else◌, is_some,
  any, elem,
}
use sentry.Prelude.Dict.{Dict, insert, lookup}
use sentry.Domain.Enums.{ExecutionEnvironment, same_environment, OrderState}
use sentry.Domain.Market.{Uuid, Label, Time}
use sentry.Domain.Trade.{RiskDecision, BrokerReview}
use sentry.Domain.Order.{OrderIntent, BrokerCommandIntent, BrokerOrder, Fill, Position}
use sentry.Risk.Engine.{RiskRule}
use sentry.Execution.Error.{Error, Result, ok, err}

-- The two details that the service reads: `order_history_complete`, if it is there and is a truth
-- value, and `negative_match_idempotency_keys`, unless it is neither list nor tuple.
pub record ReconciliationReport : Type 0 where
  pub environment : ExecutionEnvironment
  pub reconciled_at : Time
  pub successful : Bool
  pub order_history_complete : Option Bool
  pub negative_match_idempotency_keys : Option (List Label)

-- The reasons that the service gives for a transition.
pub data TransitionReason : Type 0 where
  command_ready cancellation_ready locally_denied cancellation_denied : TransitionReason
  maybe_accepted cancellation_unknown order_observed cancellation_observed : TransitionReason
  canceled_during canceled_after reconciliation_matched update_observed : TransitionReason

pub record StateTransitionRecord : Type 0 where
  pub intent_id : Uuid
  pub previous : OrderState
  pub current : OrderState
  pub reason : TransitionReason
  pub recorded_at : Time
  pub reconciliation_evidence : Bool

-- The first component of an entry of `audit_sequence`.
pub data AuditKind : Type 0 where
  risk_decision broker_review order_intent broker_command_intent broker_order fill : AuditKind
  positions_reconciled reconciliation state_transition negative_reconciliation : AuditKind

pub record Store : Type 0 where
  pub risk_decisions : Dict (RiskDecision RiskRule)
  pub reviews : Dict BrokerReview
  pub order_intents : Dict OrderIntent
  pub command_intents : Dict BrokerCommandIntent
  pub orders : Dict BrokerOrder
  pub fills : Dict Fill
  pub positions : Dict Position
  pub reconciliations : List ReconciliationReport
  pub transitions : List StateTransitionRecord
  pub negative_reconciliations : List Uuid
  pub audit_sequence : List (AuditKind × Uuid)
  pub fingerprints : Dict Uuid
  pub idempotency_keys : Dict Uuid

-- `__init__`
unfoldable pub new : Store
new = record {
  risk_decisions = [];
  reviews = [];
  order_intents = [];
  command_intents = [];
  orders = [];
  fills = [];
  positions = [];
  reconciliations = [];
  transitions = [];
  negative_reconciliations = [];
  audit_sequence = [];
  fingerprints = [];
  idempotency_keys = [];
}

abbrev pub Method : Type 0 → Type 0
Method A = Store → Result A × Store

abbrev pub audited : AuditKind → Uuid → Store → Store
audited kind id s = record s { audit_sequence = s.audit_sequence ++ (kind, id) ∷ [] }

-- `d.setdefault(key, value)`
abbrev pub set_default {ℓ} : {V : Type ℓ} → ℕ → V → Dict V → Dict V
set_default key v d = if is_some (lookup key d) then d else insert key v d

-- The identifier of a decision, a uuid4, stands beside it.
unfoldable pub save_risk_decision : Uuid → RiskDecision RiskRule → Method ⊤
save_risk_decision decision_id decision s = (
  ok tt,
  audited AuditKind.risk_decision decision_id
      (record s { risk_decisions = set_default decision_id decision s.risk_decisions }),
)

unfoldable pub save_review : BrokerReview → Method ⊤
save_review review s = (
  ok tt,
  audited AuditKind.broker_review review.review_id
      (record s { reviews = set_default review.review_id review s.reviews }),
)

-- A new intent in its place, with both indices.
abbrev pub with_intent : OrderIntent → Store → Store
with_intent intent s = record s {
  order_intents = insert intent.intent_id intent s.order_intents;
  fingerprints = insert intent.order_fingerprint intent.intent_id s.fingerprints;
  idempotency_keys = insert intent.idempotency_key intent.intent_id s.idempotency_keys;
  audit_sequence = s.audit_sequence ++ (AuditKind.order_intent, intent.intent_id) ∷ [];
}

unfoldable pub save_order_intent : OrderIntent → Method ⊤
save_order_intent intent s =
    if is_some (lookup intent.intent_id s.order_intents)
    then (err Error.duplicate_order, s)
    else if is_some (lookup intent.order_fingerprint s.fingerprints)
    then (err Error.duplicate_order, s)
    else if is_some (lookup intent.idempotency_key s.idempotency_keys)
    then (err Error.duplicate_order, s)
    else (ok tt, with_intent intent s)

unfoldable pub save_command_intent : BrokerCommandIntent → Method ⊤
save_command_intent command s =
    if is_some (lookup command.command_intent_id s.command_intents)
    then (err Error.duplicate_order, s)
    else if not (is_some (lookup command.order_intent_id s.order_intents))
    then (err Error.safety_critical, s)
    else (
      ok tt,
      audited AuditKind.broker_command_intent command.command_intent_id (record s {
        command_intents = insert command.command_intent_id command s.command_intents;
      }),
    )

unfoldable pub save_order : BrokerOrder → Method ⊤
save_order order s =
    if not (is_some (lookup order.intent_id s.order_intents))
    then (err Error.safety_critical, s)
    else (
      ok tt,
      audited AuditKind.broker_order order.order_id
          (record s { orders = insert order.intent_id order s.orders }),
    )

-- `any(order.order_id == order_id for order in self.orders.values())`
abbrev pub has_order : Uuid → Dict BrokerOrder → Bool
has_order order_id orders = any (λ entry. entry.1.order_id == order_id) orders

unfoldable pub save_fill : Fill → Method ⊤
save_fill f s =
    if is_some (lookup f.fill_id s.fills)
    then (ok tt, s)
    else if not (has_order f.order_id s.orders)
    then (err Error.safety_critical, s)
    else (ok tt, audited AuditKind.fill f.fill_id (record s { fills = insert f.fill_id f s.fills }))

-- `len({position.environment for position in positions}) > 1`
abbrev pub mixes_environments : List Position → Bool
mixes_environments [] = false
mixes_environments (p ∷ rest) =
    any (λ (q : Position). not (same_environment p.environment q.environment)) rest

-- `{position.position_id: position for position in positions}`, added to a dictionary
abbrev pub index_positions : List Position → Dict Position → Dict Position
index_positions [] d = d
index_positions (p ∷ rest) d = index_positions rest (insert p.position_id p d)

-- The marker is uuid5 of a hash of the whole value, here and in `save_reconciliation`.
unfoldable pub replace_positions : (List Position → Uuid) → List Position → Method ⊤
replace_positions marker positions s =
    if mixes_environments positions then (err Error.safety_critical, s) else (
      ok tt,
      audited AuditKind.positions_reconciled (marker positions)
          (record s { positions = index_positions positions [] }),
    )

unfoldable pub save_reconciliation : (ReconciliationReport → Uuid) → ReconciliationReport → Method ⊤
save_reconciliation marker report s = (
  ok tt,
  audited AuditKind.reconciliation (marker report)
      (record s { reconciliations = s.reconciliations ++ report ∷ [] }),
)

unfoldable pub record_transition : StateTransitionRecord → Method ⊤
record_transition r s = (
  ok tt,
  audited AuditKind.state_transition r.intent_id
      (record s { transitions = s.transitions ++ r ∷ [] }),
)

-- `self.order_intents.get(intent_id) if intent_id else None`
abbrev pub intent_of : Option Uuid → Store → Option OrderIntent
intent_of none s = none
intent_of (some intent_id) s = lookup intent_id s.order_intents

unfoldable pub find_intent_by_fingerprint : Label → Method (Option OrderIntent)
find_intent_by_fingerprint fingerprint s = (ok (intent_of (lookup fingerprint s.fingerprints) s), s)

unfoldable pub get_order : Uuid → Method (Option BrokerOrder)
get_order intent_id s = (ok (lookup intent_id s.orders), s)

unfoldable pub get_order_intent : Uuid → Method (Option OrderIntent)
get_order_intent intent_id s = (ok (lookup intent_id s.order_intents), s)

abbrev pub first_command : Uuid → Dict BrokerCommandIntent → Option BrokerCommandIntent
first_command intent_id [] = none
first_command intent_id ((_, command) ∷ rest) =
    if command.order_intent_id == intent_id then some command else first_command intent_id rest

unfoldable pub get_command_for_order_intent : Uuid → Method (Option BrokerCommandIntent)
get_command_for_order_intent intent_id s = (ok (first_command intent_id s.command_intents), s)

-- `set.add`
abbrev pub add : ℕ → List ℕ → List ℕ
add a l = if elem a l then l else l ++ a ∷ []

unfoldable pub record_negative_reconciliation : Uuid → Method ⊤
record_negative_reconciliation intent_id s = (
  ok tt,
  audited AuditKind.negative_reconciliation intent_id
      (record s { negative_reconciliations = add intent_id s.negative_reconciliations }),
)

-- ===== src/Execution/Store/Methods.antt =====
-- app/execution/service.py: the methods of the store other than `save_order_intent` keep what is
-- durable, the indices and the lawfulness of what is recorded.
use sentry.Prelude.{
  refl, inl, inr, List, [], ◌∷◌, ◌++◌, is_some, All, Bool-cases, Option-cases, if◌then◌else◌,
}
use sentry.Prelude.Dict.{lookup}
use sentry.Domain.Market.{Uuid, Label}
use sentry.Domain.Order.{BrokerCommandIntent, BrokerOrder, Fill, Position}
use sentry.Domain.Trade.{RiskDecision, BrokerReview}
use sentry.Risk.Engine.{RiskRule}
use sentry.Execution.Store.{
  ReconciliationReport, StateTransitionRecord, save_risk_decision, has_order, save_review,
  save_command_intent, save_order, save_fill, replace_positions, mixes_environments,
  save_reconciliation, record_transition, find_intent_by_fingerprint, get_order, get_order_intent,
  get_command_for_order_intent, record_negative_reconciliation,
}
use sentry.Execution.Store.Grows.{
  IsAllowed, Grows-same, Grows-refl, MethodGrows, lookup-insert_new, is_some-insert,
}

pub save_risk_decision-MethodGrows :
    (id : Uuid) (d : RiskDecision RiskRule) → MethodGrows (save_risk_decision id d)
unfolding save_risk_decision
save_risk_decision-MethodGrows id d = record { at = λ s. Grows-same refl refl refl refl refl refl }

pub save_review-MethodGrows : (r : BrokerReview) → MethodGrows (save_review r)
unfolding save_review
save_review-MethodGrows r = record { at = λ s. Grows-same refl refl refl refl refl refl }

pub save_reconciliation-MethodGrows :
    (marker : ReconciliationReport → Uuid) (r : ReconciliationReport)
    → MethodGrows (save_reconciliation marker r)
unfolding save_reconciliation
save_reconciliation-MethodGrows marker r = record {
  at = λ s. Grows-same refl refl refl refl refl refl;
}

pub record_negative_reconciliation-MethodGrows :
    (id : Uuid) → MethodGrows (record_negative_reconciliation id)
unfolding record_negative_reconciliation
record_negative_reconciliation-MethodGrows id = record {
  at = λ s. Grows-same refl refl refl refl refl refl;
}

pub find_intent_by_fingerprint-MethodGrows :
    (f : Label) → MethodGrows (find_intent_by_fingerprint f)
unfolding find_intent_by_fingerprint
find_intent_by_fingerprint-MethodGrows f = record { at = Grows-refl }

pub get_order-MethodGrows : (id : Uuid) → MethodGrows (get_order id)
unfolding get_order
get_order-MethodGrows id = record { at = Grows-refl }

pub get_order_intent-MethodGrows : (id : Uuid) → MethodGrows (get_order_intent id)
unfolding get_order_intent
get_order_intent-MethodGrows id = record { at = Grows-refl }

pub get_command_for_order_intent-MethodGrows :
    (id : Uuid) → MethodGrows (get_command_for_order_intent id)
unfolding get_command_for_order_intent
get_command_for_order_intent-MethodGrows id = record { at = Grows-refl }

pub save_fill-MethodGrows : (f : Fill) → MethodGrows (save_fill f)
unfolding save_fill
save_fill-MethodGrows f = record {
  at = λ s. elim (Bool-cases (is_some (lookup f.fill_id s.fills))) [
    | inl old ↦ rw (old, if◌then◌else◌) (Grows-refl s)
    | inr new ↦ elim (Bool-cases (has_order f.order_id s.orders)) [
      | inl known ↦ rw (new, known, if◌then◌else◌) (Grows-same refl refl refl refl refl refl)
      | inr unknown ↦ rw (new, unknown, if◌then◌else◌) (Grows-refl s)
    ]
  ];
}

pub replace_positions-MethodGrows :
    (marker : List Position → Uuid) (l : List Position) → MethodGrows (replace_positions marker l)
unfolding replace_positions
replace_positions-MethodGrows marker l = record {
  at = λ s. elim (Bool-cases (mixes_environments l)) [
    | inl mixed ↦ rw (mixed, if◌then◌else◌) (Grows-refl s)
    | inr same ↦ rw (same, if◌then◌else◌) (Grows-same refl refl refl refl refl refl)
  ];
}

pub save_command_intent-MethodGrows :
    (c : BrokerCommandIntent) → MethodGrows (save_command_intent c)
unfolding save_command_intent
save_command_intent-MethodGrows c = record {
  at = λ s. elim (Option-cases (lookup c.command_intent_id s.command_intents)) [
    | inr (_, old) ↦ rw (old, if◌then◌else◌) (Grows-refl s)
    | inl new ↦ elim (Bool-cases (is_some (lookup c.order_intent_id s.order_intents))) [
      | inr missing ↦ rw (new, missing, if◌then◌else◌) (Grows-refl s)
      | inl known ↦
          rw (new, known, if◌then◌else◌)
            (record {
              intents = λ k i e. e;
              commands =
                  λ k d e. lookup-insert_new k c.command_intent_id c d s.command_intents new e;
              orders = λ k e. e;
              indexed = λ x. record { own = x.own };
              lawful = λ x. x;
            })
    ]
  ];
}

pub save_order-MethodGrows : (o : BrokerOrder) → MethodGrows (save_order o)
unfolding save_order
save_order-MethodGrows o = record {
  at = λ s. elim (Bool-cases (is_some (lookup o.intent_id s.order_intents))) [
    | inr missing ↦ rw (missing, if◌then◌else◌) (Grows-refl s)
    | inl known ↦
        rw (known, if◌then◌else◌)
          (record {
            intents = λ k i e. e;
            commands = λ k d e. e;
            orders = λ k e. is_some-insert k o.intent_id o s.orders e;
            indexed = λ x. record { own = x.own };
            lawful = λ x. x;
          })
  ];
}

All-append :
    {A : Type 0} (P : A → Type 0) (a : A) (l : List A) → All P l → P a → All P (l ++ a ∷ [])
All-append P a [] h p = (p, tt)
All-append P a (x ∷ l) h p = (h.0, All-append P a l h.1 p)

pub record_transition-MethodGrows :
    (r : StateTransitionRecord) → IsAllowed r → MethodGrows (record_transition r)
unfolding record_transition
record_transition-MethodGrows r allowed = record {
  at = λ s. record {
    intents = λ k i e. e;
    commands = λ k d e. e;
    orders = λ k e. e;
    indexed = λ x. record { own = x.own };
    lawful = λ x. All-append IsAllowed r s.transitions x allowed;
  };
}

pub ruleset method_rules = (
  save_risk_decision-MethodGrows, save_review-MethodGrows, save_reconciliation-MethodGrows,
  record_negative_reconciliation-MethodGrows, find_intent_by_fingerprint-MethodGrows,
  get_order-MethodGrows, get_order_intent-MethodGrows, get_command_for_order_intent-MethodGrows,
  save_fill-MethodGrows, replace_positions-MethodGrows, save_command_intent-MethodGrows,
  save_order-MethodGrows,
)

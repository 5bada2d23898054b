-- ===== src/Execution/Service/Reconciled.antt =====
-- app/execution/service.py: what `reconcile_submission` has proved where it permits a retry or matches
-- an order.
use mathlib.Core.Path.{subst}
use sentry.Prelude.{
  ℕ, ◌≡◌, refl, sym, ap, ◌∙◌, inl, inr, Bool, true, false, ◌&&◌, Option, none, some, List, arith,
  ◌≢◌, All, Bool-cases, if◌then◌else◌,
}
use sentry.Prelude.Dict.{Dict, lookup}
use sentry.Domain.Enums.{OrderState, same_environment, is_unknown}
use mathlib.Core.List.{Memᴰ}
use sentry.Domain.Market.{Uuid, Label}
use sentry.Domain.Order.{OrderIntent, BrokerOrder}
use sentry.Execution.Error.{Error, ok}
use sentry.Execution.StateMachine.{transition, can_transition}
use sentry.Execution.Store.{
  Store, StateTransitionRecord, ReconciliationReport, TransitionReason, get_order, get_order_intent,
  record_transition,
}
use sentry.Execution.Store.Methods.{
  get_order-MethodGrows, get_order_intent-MethodGrows, record_negative_reconciliation-MethodGrows,
  record_transition-MethodGrows,
}
use sentry.Execution.Service.State.{World, ServiceState}
use sentry.Execution.Service.Gates.{record_step, record_allowed}
use sentry.Execution.Service.Reconciliation.{
  SubmissionReconciliation, unproven, find_match, proves_absence, matches_exactly, conclude_absent,
  conclude_match, compare_match, use_report, require_unknown, reconcile_submission,
}
use sentry.Execution.Service.Rules.{
  Condition, Triple, pure-Triple, raise-Triple, gets-Triple, bind-Triple, raise_if-Triple,
  never-Triple, concluding, with_fact, returns,
}
use sentry.Execution.Service.Quiet.{
  Answered, answered-Triple, IsStable, quiet-Triple, stored-IsQuiet,
}
use sentry.Execution.Service.Matching.{
  unknown_state, find_match-intent_id, find_match-listed, find_match-none, absent_complete,
  absent-unmatched, exact-environment, exact-contract, exact-side, exact-quantity, exact-limit,
  exact-not_submitting, exact-not_unknown,
}
use sentry.Execution.Service.Persisting.{stored-Triple}
use sentry.Execution.Service.Updated.{Any, IsSaved, save_order-Saved, keeps_IsSaved, always}

-- A retry is permitted on proof: a successful report of the environment whose order history is
-- complete confirms the key of the stored intent as not matched, and the broker lists no order of it.
pub record IsAbsent (w : World) (id : Uuid) (report : ReconciliationReport) (t : ServiceState)
    : Type 0 where
  pub reported : Answered w.reconcile report
  pub successful : report.successful ≡ true
  pub environment : report.environment ≡ w.environment
  pub intent : OrderIntent
  pub stored_intent : lookup id t.store.order_intents ≡ some intent
  pub complete : report.order_history_complete ≡ some true
  pub keys : List Label
  pub confirmed : report.negative_match_idempotency_keys ≡ some keys
  pub unmatched : Memᴰ intent.idempotency_key keys
  pub turn : ℕ
  pub listed : List BrokerOrder
  pub answer : w.orders turn ≡ ok listed
  pub no_match : All (λ o. o.intent_id ≢ id) listed

-- A match is the exact local order, which was in SUBMISSION_UNKNOWN; it is listed by the broker, it is
-- stored in its place, and the state machine allows its state with evidence.
pub record IsMatch (w : World) (id : Uuid) (orders : Dict BrokerOrder) (match : BrokerOrder)
    (t : ServiceState) : Type 0 where
  pub local : BrokerOrder
  pub stored_local : lookup id orders ≡ some local
  pub unknown : local.state ≡ OrderState.submission_unknown
  pub environment : match.environment ≡ w.environment
  pub same_contract : match.contract ≡ local.contract
  pub same_side : match.side ≡ local.side
  pub same_quantity : match.quantity ≡ local.quantity
  pub same_limit : match.limit_price ≡ local.limit_price
  pub not_submitting : match.state ≢ OrderState.submitting
  pub not_unknown : match.state ≢ OrderState.submission_unknown
  pub turn : ℕ
  pub listed : List BrokerOrder
  pub answer : w.orders turn ≡ ok listed
  pub found : Memᴰ match listed
  pub own : match.intent_id ≡ id
  pub replaced : lookup id t.store.orders ≡ some match
  pub allowed : can_transition OrderState.submission_unknown match.state true ≡ true

transition-orders :
    (r : StateTransitionRecord) (st : Store) → (record_transition r st).1.orders ≡ st.orders
unfolding record_transition
transition-orders r st = refl

module _ (w : World) (id : Uuid) (orders : Dict BrokerOrder) where
  -- What the result says is proved.
  abbrev pub Proved : SubmissionReconciliation → Condition
  Proved r t =
      (r.retry_permitted ≡ true → IsAbsent w id r.broker_report t)
      × ((match : BrokerOrder) → r.matched_order ≡ some match → IsMatch w id orders match t)

  unproven-Proved :
      (report : ReconciliationReport) (t : ServiceState) → Proved (unproven id report) t
  unproven-Proved report t = (λ e. absurd (cc (e)), λ m e. absurd (cc (e)))

  module _ (report : ReconciliationReport) (reported : Answered w.reconcile report)
      (local : BrokerOrder) (listed : List BrokerOrder) (turn : ℕ)
      (answer : w.orders turn ≡ ok listed) (successful : report.successful ≡ true)
      (environment : report.environment ≡ w.environment)
      (stored_local : lookup id orders ≡ some local) (unknown : is_unknown local.state ≡ true) where
    no_intent : true ≡ proves_absence report none → ⊥
    unfolding proves_absence
    no_intent e = cc (e)

    has_intent-IsStable :
        (intent : OrderIntent) → IsStable (λ s. lookup id s.store.order_intents ≡ some intent)
    has_intent-IsStable intent = record { at = λ q h. q.grows.intents _ _ h }

    conclude_absent-Proved :
        (intent : Option OrderIntent) (absent : Bool)
        → absent ≡ proves_absence report intent
        → find_match id listed ≡ none
        → Triple
            (λ s. lookup id s.store.order_intents ≡ intent)
            (conclude_absent w id report absent)
            Proved
            Any
    conclude_absent-Proved intent false e no_match = pure-Triple _ (λ s h. unproven-Proved report s)
    conclude_absent-Proved none true e no_match = never-Triple _ (λ s h. no_intent e)
    conclude_absent-Proved (some intent) true e no_match =
        bind-Triple (λ _ s. lookup id s.store.order_intents ≡ some intent)
          (quiet-Triple (has_intent-IsStable intent) (λ s h. tt)
            (stored-IsQuiet w _ (record_negative_reconciliation-MethodGrows id)))
          (λ _. pure-Triple _ (λ s h. (
            λ permitted. record {
              reported = reported;
              successful = successful;
              environment = environment;
              intent = intent;
              stored_intent = h;
              complete = absent_complete report intent (sym e);
              keys = (absent-unmatched report intent (sym e)).0;
              confirmed = (absent-unmatched report intent (sym e)).1;
              unmatched = (absent-unmatched report intent (sym e)).2;
              turn = turn;
              listed = listed;
              answer = answer;
              no_match = find_match-none id listed no_match;
            },
            λ m f. absurd (cc (f)),
          )))

    step-Saved :
        (match : BrokerOrder) (why : TransitionReason)
        → Triple
            (IsSaved w match)
            (record_step w id OrderState.submission_unknown match.state why true)
            (λ _ s.
              IsSaved w match s
              × (can_transition OrderState.submission_unknown match.state true ≡ true))
            Any
    unfolding record_step transition
    step-Saved match why =
        elim (Bool-cases (can_transition OrderState.submission_unknown match.state true)) [
          | inl allowed ↦
              rw (allowed, if◌then◌else◌, record_allowed)
                (bind-Triple (λ _. IsSaved w match) (gets-Triple _ (λ s h. h))
                  (λ now.
                    concluding (λ _ s h. (h, refl))
                      (keeps_IsSaved w match _ (record_transition-MethodGrows _ allowed)
                        (transition-orders _))))
          | inr refused ↦
              rw (refused, if◌then◌else◌, record_allowed)
                (raise-Triple Error.invalid_transition (λ s h. tt))
        ]

    conclude_match-Proved :
        (match : BrokerOrder) (exact : Bool)
        → exact ≡ matches_exactly w match local
        → find_match id listed ≡ some match
        → Triple Any (conclude_match w id report match exact) Proved Any
    conclude_match-Proved match false e found = pure-Triple _ (λ s h. unproven-Proved report s)
    conclude_match-Proved match true e found = bind-Triple _ (save_order-Saved w match) (λ _.
        bind-Triple _ (step-Saved match TransitionReason.reconciliation_matched) (λ _.
          pure-Triple _ (λ s h. (
            λ permitted. absurd (cc (permitted)),
            λ m same.
                let own : match ≡ m = cc (same) in
                subst (λ x. IsMatch w id orders x s) own
                  (record {
                    local = local;
                    stored_local = stored_local;
                    unknown = unknown_state local.state unknown;
                    environment = exact-environment w match local (sym e);
                    same_contract = exact-contract w match local (sym e);
                    same_side = exact-side w match local (sym e);
                    same_quantity = exact-quantity w match local (sym e);
                    same_limit = exact-limit w match local (sym e);
                    not_submitting = exact-not_submitting w match local (sym e);
                    not_unknown = exact-not_unknown w match local (sym e);
                    turn = turn;
                    listed = listed;
                    answer = answer;
                    found = find_match-listed id listed match found;
                    own = find_match-intent_id id listed match found;
                    replaced =
                        ap (λ k. lookup k s.store.orders)
                          (sym (find_match-intent_id id listed match found))
                        ∙ h.0;
                    allowed = h.1;
                  }),
          ))))

    compare_match-Proved :
        (found : Option BrokerOrder)
        → found ≡ find_match id listed
        → Triple Any (compare_match w id report local found) Proved Any
    unfolding get_order_intent
    compare_match-Proved none e =
        bind-Triple (λ intent s. lookup id s.store.order_intents ≡ intent)
          (stored-Triple w (get_order_intent id) Any
            (λ intent s. lookup id s.store.order_intents ≡ intent) Any (λ s t p q. tt)
            (λ s t intent p q store f.
              let read : lookup id s.store.order_intents ≡ intent = cc (f) in
              ap (λ st. lookup id st.order_intents) store ∙ read)
            (get_order_intent-MethodGrows id))
          (λ intent. conclude_absent-Proved intent (proves_absence report intent) refl (sym e))
    compare_match-Proved (some match) e =
        conclude_match-Proved match (matches_exactly w match local) refl (sym e)

  Any-IsStable : IsStable Any
  Any-IsStable = record { at = λ q h. tt }

  usable-successful :
      (report : ReconciliationReport)
      → true ≡ (report.successful && same_environment report.environment w.environment)
      → report.successful ≡ true
  usable-successful report e = ground arith

  usable-environment :
      (report : ReconciliationReport)
      → true ≡ (report.successful && same_environment report.environment w.environment)
      → report.environment ≡ w.environment
  usable-environment report e = ground arith

  module _ (local : BrokerOrder) (stored_local : lookup id orders ≡ some local)
      (unknown : is_unknown local.state ≡ true) where
    use_report-Proved :
        (report : ReconciliationReport)
        → Answered w.reconcile report
        → (usable : Bool)
        → usable ≡ (report.successful && same_environment report.environment w.environment)
        → Triple Any (use_report w id report local usable) Proved Any
    use_report-Proved report reported false e = pure-Triple _ (λ s h. unproven-Proved report s)
    use_report-Proved report reported true e =
        bind-Triple _ (answered-Triple w Any-IsStable (λ s h. tt) w.orders) (λ listed.
          with_fact λ answered.
            compare_match-Proved report reported local listed answered.0 answered.1
              (usable-successful report e) (usable-environment report e) stored_local unknown
              (find_match id listed) refl)

  -- The local order is in SUBMISSION_UNKNOWN.
  IsUnknown : BrokerOrder → Type 0
  IsUnknown local = (lookup id orders ≡ some local) × (is_unknown local.state ≡ true)

  require_unknown-Triple :
      (found : Option BrokerOrder)
      → found ≡ lookup id orders
      → Triple Any (require_unknown w found) (λ local s. Any s × IsUnknown local) Any
  unfolding IsUnknown
  require_unknown-Triple none e = raise-Triple _ (λ s h. tt)
  require_unknown-Triple (some local) e =
      bind-Triple _ (raise_if-Triple (λ s h. tt) _ _)
        (λ _. pure-Triple local (λ s h. (tt, (sym e, ground (arith, h.1)))))

  reconcile-Triple : Triple (λ s. s.store.orders ≡ orders) (reconcile_submission w id) Proved Any
  unfolding reconcile_submission get_order IsUnknown
  reconcile-Triple =
      bind-Triple (λ found s. Any s × (found ≡ lookup id orders))
        (stored-Triple w (get_order id) (λ s. s.store.orders ≡ orders)
          (λ found s. Any s × (found ≡ lookup id orders)) Any (λ s t p q. tt)
          (λ s t found p q store e. (tt, cc (e, p))) (get_order-MethodGrows id))
        (λ found. with_fact λ read. bind-Triple _ (require_unknown-Triple found read) (λ local.
          with_fact λ unknown.
            bind-Triple _ (answered-Triple w Any-IsStable (λ s h. tt) w.reconcile) (λ report.
              with_fact λ reported.
                bind-Triple (λ _. Any) (always (λ _. Any) (λ _ _. tt) _)
                  (λ _. use_report-Proved local unknown.0 unknown.1 report reported _ refl))))

-- `reconcile_submission` acts on proof. It permits a retry only if a successful report of the
-- service's environment that the broker gave, with a complete order history, confirms that the key of
-- the stored intent was not matched, and the broker lists no order of the intent. It reports an order as matched only if the
-- local order was in SUBMISSION_UNKNOWN and the order is the one that the broker lists for the intent,
-- with the environment of the service and the contract, side, quantity and limit of the local order,
-- and settled; the store then has it, by a transition that the state machine allows with evidence.
pub reconcile_submission-proves :
    (w : World) (id : Uuid) (s t : ServiceState) (r : SubmissionReconciliation)
    → reconcile_submission w id s ≡ (ok r, t)
    → (r.retry_permitted ≡ true → IsAbsent w id r.broker_report t)
      × ((match : BrokerOrder) → r.matched_order ≡ some match → IsMatch w id s.store.orders match t)
reconcile_submission-proves w id s t r e =
    returns (reconcile-Triple w id s.store.orders) s refl r t e

-- ===== src/Execution/Service/Failing.antt =====
-- app/execution/service.py: what the service makes of a LIVE write that may have been accepted, and of
-- a proposal that it has an intent for.
use sentry.Prelude.{
  ℕ, suc, ◌⊎◌, [], ◌∷◌, ◌++◌, ◌≡◌, refl, true, Option, none, some, ◌==◌, if◌then◌else◌,
}
use sentry.Prelude.Dict.{lookup}
use sentry.Domain.Enums.{OrderState, same_environment}
use sentry.Domain.Trade.{TradeProposal, ExactApproval, order_fingerprint}
use sentry.Domain.Order.{OrderIntent, BrokerOrder}
use sentry.Safety.RuntimeState
use sentry.Execution.Error.{Error, Result, err}
use sentry.Execution.StateMachine.{transition}
use sentry.Execution.Store.{StateTransitionRecord, find_intent_by_fingerprint, get_order}
use sentry.Execution.Service.State.{
  World, ServiceState, ◌>>=◌, pure, raise, gets, stored, next_turn, emergency_stop, raise_if,
}
use sentry.Execution.Service.Gates.{unresolved_submission, validate_binding}
use sentry.Execution.Service.Placement.{gather, execute, unresolved}

-- The outcome: the service says that the submission is unknown, keeps the order as such, has handed
-- over nothing more, and has halted the controller before other tasks could call it.
pub record IsHeldUnknown (w : World) (pending : BrokerOrder) (s : ServiceState)
    (outcome : Result BrokerOrder × ServiceState) : Type 0 where
  pub raised : outcome.0 ≡ err Error.submission_unknown
  pub order :
      lookup pending.intent_id outcome.1.store.orders
      ≡ some (record pending { state = OrderState.submission_unknown })
  pub transition :
      (r : StateTransitionRecord) × (outcome.1.store.transitions ≡ s.store.transitions ++ (r ∷ []))
      × (r.intent_id ≡ pending.intent_id)
      × (r.current ≡ OrderState.submission_unknown)
  pub same_sent : outcome.1.sent ≡ s.sent
  pub intents : outcome.1.store.order_intents ≡ s.store.order_intents
  pub fingerprints : outcome.1.store.fingerprints ≡ s.store.fingerprints
  pub halted :
      outcome.1.safety
      ≡ RuntimeState.run (w.meanwhile (suc s.turn)) (
          RuntimeState.run
            (w.meanwhile s.turn)
            (RuntimeState.emergency_stop unresolved_submission s.safety))

-- What the broker's call may raise though the broker has the command: its time is over, the connection
-- is lost, or it says so itself.
abbrev pub MayBeAccepted : Error → Type 0
MayBeAccepted e =
    (e ≡ Error.timed_out) ⊎ ((e ≡ Error.disconnected) ⊎ (e ≡ Error.submission_unknown))

module _ (w : World) (p : TradeProposal) (approval : Option ExactApproval) (id : ℕ)
    (intent : OrderIntent) (s : ServiceState)
    (bound : same_environment p.environment w.environment ≡ true)
    (named : (p.namespace == w.namespace) ≡ true) (first : w.store_fault s.turn ≡ none)
    (second : w.store_fault (suc s.turn) ≡ none)
    (indexed : lookup (order_fingerprint w.sha256_json p) s.store.fingerprints ≡ some id)
    (stored_intent : lookup id s.store.order_intents ≡ some intent) where
  -- With a store that answers, a proposal of the service's environment and namespace whose fingerprint
  -- has an intent is not submitted again: the service raises that the submission is unknown if the
  -- order of that intent is in SUBMISSION_UNKNOWN and that it is a duplicate otherwise, keeps the store
  -- as it is and hands nothing to the broker.
  pub execute-duplicate :
      ((execute w p approval s).0
        ≡ err (
            if unresolved (lookup intent.intent_id s.store.orders)
            then Error.submission_unknown
            else Error.duplicate_order))
      × ((execute w p approval s).1.store ≡ s.store)
      × ((execute w p approval s).1.sent ≡ s.sent)
  unfolding execute gather validate_binding ◌>>=◌ gets raise_if stored find_intent_by_fingerprint
      get_order raise next_turn pure
  execute-duplicate = rw (bound, named, first, indexed, stored_intent, second) (refl, refl, refl)

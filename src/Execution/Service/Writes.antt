-- ===== src/Execution/Service/Writes.antt =====
-- app/execution/service.py: what every history of calls keeps of the commands handed to the broker.
use mathlib.Core.List.{Memᴰ}
use sentry.Domain.Trade.{TradeProposal, ExactApproval}
use sentry.Prelude.{Option, refl, ◌≡◌, ◌⊎◌, inl, inr, some, List, [], ◌∷◌, All}
use sentry.Prelude.Dict.{lookup}
use sentry.Domain.Market.{Uuid}
use sentry.Domain.Order.{OrderIntent}
use sentry.Safety.RuntimeState.{SafetyController}
use sentry.Execution.Store.Grows.{IsAllowed}
use sentry.Execution.Service.State.{World, ServiceState, Action, new}
use sentry.Execution.Service.Placement.{execute_entry}
use sentry.Execution.Service.History.{Call, step, run}
use sentry.Execution.Service.Rules.{Triple, bind-Triple, raise_if-Triple, assuming}
use sentry.Execution.Service.Others.{reconcile_submission-IsQuiet, record_broker_update-IsQuiet}
use sentry.Execution.Service.Sent.{
  Requested, IsRecorded, IsAuthorized, AllDifferent, IsSafe, IsSafe-IsStable,
}
use sentry.Execution.Service.Placing.{execute-Triple, after-IsSafe}
use sentry.Execution.Service.Cancelling.{cancel_order-Triple}

-- The call asks for this proposal, with this approval.
abbrev pub Asks : TradeProposal → Option ExactApproval → Call → Type 0
Asks p approval call = (call ≡ Call.execute_call p approval) ⊎ (call ≡ Call.entry_call p approval)

-- One of the calls asks for it.
abbrev pub AskedIn : List Call → Requested
AskedIn calls p approval = (call : Call) × Memᴰ call calls × Asks p approval call

module _ (w : World) (R : Requested) where
  -- What a method keeps whether it returns or raises, it keeps.
  kept-IsSafe :
      {A : Type 0} (m : Action A)
      → Triple (IsSafe w R) m (λ _. IsSafe w R) (IsSafe w R)
      → (s : ServiceState) → IsSafe w R s
      → IsSafe w R (m s).1
  kept-IsSafe m t s h = after-IsSafe (m s).0 (m s).1 (t.at s h)

  -- What a call asks for is requested.
  abbrev IsAsked : Call → Type 0
  IsAsked (Call.execute_call p approval) = R p approval
  IsAsked (Call.entry_call p approval) = R p approval
  IsAsked _ = Unit

  step-IsSafe :
      (call : Call) (s : ServiceState) → IsAsked call → IsSafe w R s → IsSafe w R (step w call s)
  unfolding step execute_entry
  step-IsSafe (Call.execute_call p approval) s asked h =
      kept-IsSafe _ (execute-Triple w R p approval asked) s h
  step-IsSafe (Call.entry_call p approval) s asked h =
      kept-IsSafe _
        (bind-Triple _ (raise_if-Triple (λ s h. h) _ _)
          (λ _. assuming (λ s h. h.0) (execute-Triple w R p approval asked)))
        s h
  step-IsSafe (Call.cancel_call target) s asked h =
      kept-IsSafe _ (cancel_order-Triple w R target) s h
  step-IsSafe (Call.reconcile_call id) s asked h =
      (IsSafe-IsStable w R).at ((reconcile_submission-IsQuiet w id).at s) h
  step-IsSafe (Call.update_call order fills positions evidence) s asked h =
      (IsSafe-IsStable w R).at
        ((record_broker_update-IsQuiet w order fills positions evidence).at s) h
  step-IsSafe (Call.safety_call call) s asked h = record {
    indexed = h.indexed;
    lawful = h.lawful;
    recorded = h.recorded;
    different = h.different;
    authorized = h.authorized;
  }

  run-IsSafe :
      (calls : List Call) (s : ServiceState)
      → All IsAsked calls
      → IsSafe w R s
      → IsSafe w R (run w calls s)
  unfolding run
  run-IsSafe [] s asked h = h
  run-IsSafe (call ∷ calls) s asked h =
      run-IsSafe calls (step w call s) asked.1 (step-IsSafe call s asked.0 h)

  new-IsSafe : (c : SafetyController) → IsSafe w R (new c)
  unfolding new sentry.Execution.Store.new
  new-IsSafe c = record {
    indexed = record { own = λ k i e. absurd (cc (e)) };
    lawful = tt;
    recorded = tt;
    different = tt;
    authorized = tt;
  }

module _ (w : World) where
  call-IsAsked :
      (calls : List Call) (call : Call) → Memᴰ call calls → IsAsked w (AskedIn calls) call
  call-IsAsked calls (Call.execute_call p approval) m = (Call.execute_call p approval, m, inl refl)
  call-IsAsked calls (Call.entry_call p approval) m = (Call.entry_call p approval, m, inr refl)
  call-IsAsked calls (Call.cancel_call target) m = tt
  call-IsAsked calls (Call.reconcile_call id) m = tt
  call-IsAsked calls (Call.update_call order fills positions evidence) m = tt
  call-IsAsked calls (Call.safety_call call) m = tt

  all-IsAsked :
      (calls l : List Call)
      → ((call : Call) → Memᴰ call l → Memᴰ call calls)
      → All (IsAsked w (AskedIn calls)) l
  all-IsAsked calls [] within = tt
  all-IsAsked calls (call ∷ l) within = (
    call-IsAsked calls call (within call (Memᴰ.head refl)),
    all-IsAsked calls l (λ other m. within other (Memᴰ.tail m)),
  )

  safe : (calls : List Call) (c : SafetyController) → IsSafe w (AskedIn calls) (run w calls (new c))
  safe calls c =
      run-IsSafe w (AskedIn calls) calls (new c) (all-IsAsked calls calls (λ call m. m))
        (new-IsSafe w (AskedIn calls) c)

  -- Whatever calls a new service receives, and whatever its broker, its store, its sources and other
  -- tasks do meanwhile, each command that was handed to the broker stands in the store, with the intent
  -- of the same fingerprint and key that it carries out and with an order of that intent.
  pub run-IsRecorded :
      (calls : List Call) (c : SafetyController)
      → All (λ x. IsRecorded (run w calls (new c)).store x.command) (run w calls (new c)).sent
  run-IsRecorded calls c = (safe calls c).recorded

  -- Whatever calls a new service receives, and whatever its broker, its store, its sources and other
  -- tasks do meanwhile, no two commands that were handed to the broker have the same intent, the same
  -- fingerprint or the same idempotency key.
  pub run-AllDifferent :
      (calls : List Call) (c : SafetyController) → AllDifferent (run w calls (new c)).sent
  run-AllDifferent calls c = (safe calls c).different

  -- Whatever calls a new service receives, and whatever its broker, its store, its sources and other
  -- tasks do meanwhile, each command that was handed to the broker was authorized in the turn in which
  -- it was. A placement carried out a proposal that one of the calls asked for, of the environment of
  -- the service, with its side, quantity, limit and fingerprint; the mode was not RESEARCH, nor SHADOW
  -- in LIVE; the kill switch was off and the health check passed; the safety controller permitted an
  -- entry, or for a sale an exit; in APPROVAL, and for a purchase in EXIT_AUTO, this call gave an
  -- approval of that order that was not of the future, rejected or expired and whose maximum covers the
  -- limit; and the risk engine allowed the proposal on an account that the broker and a quote of its
  -- contract that the source of quotes had answered. A cancellation was sent with the kill switch off,
  -- the health check passed and exits permitted.
  pub run-IsAuthorized :
      (calls : List Call) (c : SafetyController)
      → All (IsAuthorized w (AskedIn calls)) (run w calls (new c)).sent
  run-IsAuthorized calls c = (safe calls c).authorized

  -- Whatever calls a new service receives, and whatever its broker, its store, its sources and other
  -- tasks do meanwhile, each transition that the store records is one that the order state machine
  -- allows with the evidence recorded beside it.
  pub run-IsAllowed :
      (calls : List Call) (c : SafetyController)
      → All IsAllowed (run w calls (new c)).store.transitions
  run-IsAllowed calls c = (safe calls c).lawful

  -- Whatever calls a new service receives, and whatever its broker, its store, its sources and other
  -- tasks do meanwhile, two intents in its store that have the same fingerprint, or the same
  -- idempotency key, stand under the same identifier.
  pub run_unique :
      (calls : List Call) (c : SafetyController) (j k : Uuid) (i i' : OrderIntent)
      → lookup j (run w calls (new c)).store.order_intents ≡ some i
      → lookup k (run w calls (new c)).store.order_intents ≡ some i'
      → (i.order_fingerprint ≡ i'.order_fingerprint) ⊎ (i.idempotency_key ≡ i'.idempotency_key)
      → j ≡ k
  run_unique calls c j k i i' e e' (inl same) =
      let own = (safe calls c).indexed.own in cc ((own j i e).1, (own k i' e').1, same)
  run_unique calls c j k i i' e e' (inr same) =
      let own = (safe calls c).indexed.own in cc ((own j i e).2, (own k i' e').2, same)

-- ===== src/Execution/Service/Cancelling.antt =====
-- app/execution/service.py: a cancellation keeps what holds of the commands handed to the broker.
use sentry.Prelude.{◌≡◌, refl, true, false, Option, none, some, arith, inr}
use sentry.Domain.Market.{AccountSnapshot}
use sentry.Domain.Order.{OrderIntent, BrokerCommandIntent, BrokerOrder}
use sentry.Safety.RuntimeState.{permits_risk_reducing_exit}
use sentry.Domain.Enums.{BrokerAction, OrderState}
use sentry.Execution.Error.{Denial, Error}
use sentry.Execution.Store.{TransitionReason}
use sentry.Execution.Store.Methods.{save_order-MethodGrows, find_intent_by_fingerprint-MethodGrows}
use sentry.Execution.Service.State.{World, ServiceState}
use sentry.Execution.Service.Cancellation.{
  Original, send_cancellation, cancel_denial, cancel_intent, cancel_command, refuse_cancellation,
  transmit_cancellation, cancel_order,
}
use sentry.Execution.Service.Rules.{
  Triple, pure-Triple, raise-Triple, gets-Triple, bind-Triple, attempt-Triple, raise_if-Triple,
  assuming, with_fact,
}
use sentry.Execution.Service.Quiet.{quiet-Triple, quiet-bind, await-IsQuiet, stored-IsQuiet}
use sentry.Execution.Service.Parts.{record_step-IsQuiet}
use sentry.Execution.Service.Steps.{
  deny_duplicate-IsQuiet, require_reconciliation-IsQuiet, require_capability-IsQuiet,
  deny_external-IsQuiet,
}
use sentry.Execution.Service.Others.{admit_cancellation-IsQuiet, settle_cancellation-IsQuiet}
use sentry.Execution.Service.Sent.{Requested, IsSafe, IsSafe-IsStable, IsCancellation}
use sentry.Execution.Service.Persisting.{
  Agrees, HasIntent, HasIntent-IsStable, HasOrder, HasOrder-IsStable, HasCommand,
  save_order_intent-Triple, save_command_intent-Triple, save_order-Triple,
}
use sentry.Execution.Service.Placing.{quietly, transmitted, transmit-Triple, after-IsSafe}

module _ (w : World) (s : ServiceState) (unhealthy unsafe : Denial)
    (cleared : cancel_denial w unhealthy unsafe s ≡ none) where
  cleared-kill_switch : w.kill_switch_active s.turn ≡ false
  unfolding cancel_denial
  cleared-kill_switch = ground arith

  cleared-healthy : w.healthcheck s.turn ≡ true
  unfolding cancel_denial
  cleared-healthy = ground arith

  cleared-exit : permits_risk_reducing_exit s.safety ≡ true
  unfolding cancel_denial permits_risk_reducing_exit
  cleared-exit = ground arith

module _ (w : World) (R : Requested) (i : OrderIntent) (c : BrokerCommandIntent)
    (agrees : Agrees i c) (action : c.action ≡ BrokerAction.cancel_option_order) where
  IsCleared : ServiceState → Type 0
  IsCleared s = cancel_denial w Denial.cancel_safety_changed Denial.cancel_safety_changed s ≡ none

  refuse_cancellation-Triple :
      (pending : BrokerOrder) (denial : Option Denial)
      → Triple
          (λ s.
            HasOrder w R i c s
            × (denial
                ≡ cancel_denial w Denial.cancel_safety_changed Denial.cancel_safety_changed s))
          (refuse_cancellation w pending denial)
          (λ _ s. HasOrder w R i c s × IsCleared s)
          (IsSafe w R)
  unfolding IsCleared
  refuse_cancellation-Triple pending none = pure-Triple tt (λ s h. (h.0, cc))
  refuse_cancellation-Triple pending (some why) =
      assuming (λ s h. h.0.has.has.safe)
        (quietly w R (stored-IsQuiet w _ (save_order-MethodGrows _)) (λ _.
          quietly w R (record_step-IsQuiet w _ _ _ _ _)
            (λ _. raise-Triple (Error.denied why) (λ s h. h))))

  cleared-IsCancellation :
      (s : ServiceState) → IsCleared s → IsCancellation w (transmitted w R i c agrees s)
  unfolding IsCleared
  cleared-IsCancellation s h = record {
    action = action;
    kill_switch = cleared-kill_switch w s _ _ h;
    healthy = cleared-healthy w s _ _ h;
    exit = cleared-exit w s _ _ h;
  }

  pub transmit_cancellation-Triple :
      (target pending : BrokerOrder)
      → Triple
          (HasOrder w R i c)
          (transmit_cancellation w target c pending)
          (λ _. IsSafe w R)
          (IsSafe w R)
  unfolding transmit_cancellation
  transmit_cancellation-Triple target pending =
      bind-Triple _ (gets-Triple _ (λ s h. (h, refl))) (λ denial.
        bind-Triple _ (refuse_cancellation-Triple pending denial) (λ _.
          bind-Triple _
            (attempt-Triple (
              assuming (λ s h. (h.0, inr (cleared-IsCancellation s h.1)))
                (transmit-Triple w R i c agrees _)))
            (λ answer. assuming (after-IsSafe answer) (
              quiet-Triple (IsSafe-IsStable w R) (λ s h. h)
                (settle_cancellation-IsQuiet w pending answer)))))

module _ (w : World) (R : Requested) where
  pub cancel_command-Triple :
      (target : BrokerOrder) (original : Original) (i : OrderIntent)
      (account observed : AccountSnapshot)
      → Triple
          (HasIntent w R i)
          (cancel_command w target original i account observed)
          (λ c s. HasIntent w R i s × (Agrees i c × (c.action ≡ BrokerAction.cancel_option_order)))
          (IsSafe w R)
  unfolding cancel_command
  cancel_command-Triple target original i account observed =
      let keep = HasIntent-IsStable w R i in
      quiet-bind keep (λ s h. h.safe) (await-IsQuiet w _)
        (λ capabilities.
          quiet-bind keep (λ s h. h.safe) (require_capability-IsQuiet w _ _)
            (λ capability.
              quiet-bind keep (λ s h. h.safe) (deny_external-IsQuiet w _)
                (λ _.
                  bind-Triple _ (raise_if-Triple (λ s h. h.safe) _ _)
                    (λ _. gets-Triple _ (λ s h. (h.0, ((refl, refl, refl), refl)))))))

  send-Triple :
      (target : BrokerOrder) (original : Original) (i : OrderIntent)
      (account observed : AccountSnapshot)
      → Triple
          (HasIntent w R i)
          (send_cancellation w target original i account observed)
          (λ _. IsSafe w R)
          (IsSafe w R)
  unfolding send_cancellation
  send-Triple target original i account observed =
      bind-Triple _ (cancel_command-Triple target original i account observed) (λ c.
        with_fact {F = Agrees i c × (c.action ≡ BrokerAction.cancel_option_order)} λ facts.
          bind-Triple (λ _. HasCommand w R i c) (save_command_intent-Triple w R i c)
            (λ _.
              bind-Triple (λ _. HasOrder w R i c) (save_order-Triple w R i c _ refl)
                (λ _.
                  quiet-bind (HasOrder-IsStable w R i c) (λ s h. h.has.has.safe)
                    (record_step-IsQuiet w i.intent_id OrderState.intent_persisted
                      OrderState.submitting TransitionReason.cancellation_ready false)
                    (λ _.
                      bind-Triple (λ _. IsSafe w R)
                        (transmit_cancellation-Triple w R i c facts.0 facts.1 target _)
                        (λ result. pure-Triple _ (λ s h. h))))))

  pub cancel_order-Triple :
      (target : BrokerOrder)
      → Triple (IsSafe w R) (cancel_order w target) (λ _. IsSafe w R) (IsSafe w R)
  unfolding cancel_order cancel_intent
  cancel_order-Triple target = quietly w R (admit_cancellation-IsQuiet w target) (λ original.
      quietly w R (await-IsQuiet w _) (λ account. quietly w R (await-IsQuiet w _) (λ observed.
        quietly w R (require_reconciliation-IsQuiet w) (λ _.
          quietly w R (stored-IsQuiet w _ (find_intent_by_fingerprint-MethodGrows _)) (λ found.
            quietly w R (deny_duplicate-IsQuiet w found) (λ _.
              bind-Triple (λ _. IsSafe w R) (gets-Triple _ (λ s h. h))
                (λ i.
                  bind-Triple _ (save_order_intent-Triple w R i)
                    (λ _. send-Triple target original i account observed))))))))

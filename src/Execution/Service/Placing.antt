-- ===== src/Execution/Service/Placing.antt =====
-- app/execution/service.py: a placement keeps what holds of the commands handed to the broker.
use sentry.Prelude.{
  ℕ, ◌≡◌, refl, sym, ap, ◌∙◌, ⊤, Bool, true, false, not, ◌||◌, Option, List, [], ◌∷◌, inl, arith,
  is_some, All, ◌==◌,
}
use sentry.Prelude.Dict.{lookup}
use sentry.Domain.Enums.{same_environment}
use sentry.Domain.Trade.{TradeProposal, ExactApproval, order_fingerprint}
use sentry.Domain.Order.{OrderIntent, BrokerCommandIntent, BrokerOrder}
use sentry.Execution.Error.{Error, Result, ok, err, is_denial}
use sentry.Execution.Store.{TransitionReason}
use sentry.Execution.Store.Methods.{save_order-MethodGrows, find_intent_by_fingerprint-MethodGrows}
use sentry.Execution.Service.State.{
  World, ServiceState, Transmission, Action, ◌>>=◌, transmit, next_turn,
}
use sentry.Execution.Service.Gates.{validate_binding}
use sentry.Execution.Service.Placement.{
  Evidence, gather, order_intent, place_command, pending_order, submit, after_gate, refuse, execute,
}
use sentry.Execution.Service.Rules.{
  Condition, After, Triple, pure-Triple, raise-Triple, gets-Triple, bind-Triple, attempt-Triple,
  raise_if-Triple, assuming, with_fact,
}
use sentry.Execution.Service.Quiet.{
  answered-Triple, raise_if-IsQuiet, fact-IsStable, quiet-bind, IsQuiet, quiet-Triple,
  await-IsQuiet, gets-IsQuiet, stored-IsQuiet,
}
use sentry.Execution.Service.Parts.{
  preflight-IsQuiet, validate_approval-IsQuiet, record_step-IsQuiet,
}
use sentry.Execution.Service.Steps.{
  deny_duplicate-IsQuiet, require_reconciliation-IsQuiet, assess-IsQuiet, broker_review-IsQuiet,
  require_capability-IsQuiet, deny_external-IsQuiet, settle_placement-IsQuiet,
}
use sentry.Execution.Service.Sent.{Requested, IsSafe, IsSafe-IsStable, IsAuthorized, Different}
use sentry.Execution.Service.Persisting.{
  Unsent, Agrees, HasOrder, HasOrder-IsStable, persist-Triple,
}
use sentry.Execution.Service.Checks.{IsCleared, local_gate-Triple}
use sentry.Execution.Service.Cleared.{CarriesOut, IsGathered, IsCleared-IsPlacement}

module _ (w : World) (R : Requested) (i : OrderIntent) (c : BrokerCommandIntent)
    (agrees : Agrees i c) where
  Different-all : (l : List Transmission) → All (Unsent i) l → All (λ y. Different c y.command) l
  Different-all [] u = tt
  Different-all (y ∷ l) u = (
    (λ e. u.0.0 (sym agrees.0 ∙ e), λ e. u.0.1 (sym agrees.1 ∙ e), λ e. u.0.2 (sym agrees.2 ∙ e)),
    Different-all l u.1,
  )

  abbrev pub transmitted : ServiceState → Transmission
  transmitted s = record { command = c; turn = s.turn; controller = s.safety }

  either-After :
      (r : Result BrokerOrder) (s : ServiceState)
      → IsSafe w R s
      → After (λ _. IsSafe w R) (IsSafe w R) r s
  either-After (ok a) s h = h
  either-After (err e) s h = h

  -- Handing over a command that is stored, new and authorized.
  pub transmit-Triple :
      (answer : ℕ → Result BrokerOrder)
      → Triple
          (λ s. HasOrder w R i c s × IsAuthorized w R (transmitted s))
          (transmit w c answer)
          (λ _. IsSafe w R)
          (IsSafe w R)
  unfolding transmit next_turn
  transmit-Triple answer = record {
    at = λ s h.
        let has = h.0.has in
        let safe = has.has.safe in
        either-After (answer s.turn) _ (record {
          indexed = safe.indexed;
          lawful = safe.lawful;
          recorded = (
            record {
              intent = i;
              stored = ap (λ k. lookup k s.store.order_intents) agrees.0 ∙ has.has.intent;
              command = has.command;
              order = ap (λ k. is_some (lookup k s.store.orders)) agrees.0 ∙ h.0.order;
              fingerprint = sym agrees.1;
              key = sym agrees.2;
            },
            safe.recorded,
          );
          different = (Different-all s.sent has.has.unsent, safe.different);
          authorized = (h.1, safe.authorized);
        });
  }

-- A quiet first step keeps what is safe.
pub quietly :
    (w : World) (R : Requested) {A B : Type 0} {Q : B → Condition} {m : Action A} {f : A → Action B}
    → IsQuiet m
    → ((a : A) → Triple (IsSafe w R) (f a) Q (IsSafe w R))
    → Triple (IsSafe w R) (m >>= f) Q (IsSafe w R)
quietly w R q tf = quiet-bind (IsSafe-IsStable w R) (λ s h. h) q tf

pub after-IsSafe :
    {w : World} {R : Requested} {A : Type 0} (r : Result A) (s : ServiceState)
    → After (λ _. IsSafe w R) (IsSafe w R) r s
    → IsSafe w R s
after-IsSafe (ok a) s h = h
after-IsSafe (err e) s h = h

module _ (w : World) (R : Requested) (i : OrderIntent) (c : BrokerCommandIntent)
    (agrees : Agrees i c) (p : TradeProposal) (approval : Option ExactApproval)
    (asked : R p approval) (e : Evidence) (gathered : IsGathered w p e) where
  refuse-Triple :
      {Q : Condition} (pending : BrokerOrder) (denial : Bool) (x : Error)
      → Triple (HasOrder w R i c) (refuse w pending denial x) (λ _. Q) (IsSafe w R)
  refuse-Triple pending true x =
      assuming (λ s h. h.has.has.safe)
        (quietly w R (stored-IsQuiet w _ (save_order-MethodGrows _))
          (λ _. quietly w R (record_step-IsQuiet w _ _ _ _ _) (λ _. raise-Triple x (λ s h. h))))
  refuse-Triple pending false x = raise-Triple x (λ s h. h.has.has.safe)

  after_gate-Triple :
      (pending : BrokerOrder) (gated : Result ⊤)
      → Triple
          (After (λ _ s. HasOrder w R i c s × IsCleared w p approval e s) (HasOrder w R i c) gated)
          (after_gate w pending gated)
          (λ _ s. HasOrder w R i c s × IsCleared w p approval e s)
          (IsSafe w R)
  after_gate-Triple pending (ok a) = pure-Triple tt (λ s h. h)
  after_gate-Triple pending (err x) = refuse-Triple pending (is_denial x) x

  pub submit-Triple :
      (pending : BrokerOrder)
      → CarriesOut w p c
      → Triple (HasOrder w R i c) (submit w p approval e c pending) (λ _. IsSafe w R) (IsSafe w R)
  unfolding submit
  submit-Triple pending terms =
      bind-Triple _ (attempt-Triple (local_gate-Triple w (HasOrder-IsStable w R i c) p approval e))
        (λ gated. bind-Triple _ (after_gate-Triple pending gated) (λ _.
          bind-Triple _
            (attempt-Triple (
              assuming
                (λ s h. (
                  h.0,
                  inl (
                    p,
                    approval,
                    asked,
                    IsCleared-IsPlacement w p approval s c terms e gathered h.1,
                  ),
                ))
                (transmit-Triple w R i c agrees _)))
            (λ answer. assuming (after-IsSafe answer) (
              quiet-Triple (IsSafe-IsStable w R) (λ s h. h)
                (settle_placement-IsQuiet w pending answer)))))

module _ (w : World) (R : Requested) where
  is_bound :
      (p : TradeProposal)
      → (not (same_environment p.environment w.environment) || not (p.namespace == w.namespace))
        ≡ false
      → p.environment ≡ w.environment
  is_bound p e = ground arith

  -- A quiet first step keeps what is safe, and that the proposal is of the environment.
  kept :
      (p : TradeProposal) {A B : Type 0} {Q : B → Condition} {m : Action A} {f : A → Action B}
      → IsQuiet m
      → ((a : A)
          → Triple (λ s. IsSafe w R s × (p.environment ≡ w.environment)) (f a) Q (IsSafe w R))
      → Triple (λ s. IsSafe w R s × (p.environment ≡ w.environment)) (m >>= f) Q (IsSafe w R)
  kept p q tf = quiet-bind (fact-IsStable (IsSafe-IsStable w R)) (λ s h. h.0) q tf

  pub gather-Triple :
      (p : TradeProposal) (approval : Option ExactApproval)
      → Triple
          (IsSafe w R)
          (gather w p approval)
          (λ e s. (IsSafe w R s × (p.environment ≡ w.environment)) × IsGathered w p e)
          (IsSafe w R)
  unfolding gather validate_binding
  gather-Triple p approval =
      bind-Triple (λ _. IsSafe w R) (quiet-Triple (IsSafe-IsStable w R) (λ s h. h) (gets-IsQuiet _))
        (λ mode. bind-Triple _ (raise_if-Triple (λ s h. h) _ _) (λ _.
          assuming (λ s h. (h.0, is_bound p h.1))
            (kept p (stored-IsQuiet w _ (find_intent_by_fingerprint-MethodGrows _)) (λ found.
              kept p (deny_duplicate-IsQuiet w found) (λ _.
                kept p (preflight-IsQuiet w p mode) (λ _. kept p (await-IsQuiet w _) (λ account.
                  kept p (await-IsQuiet w _) (λ observed.
                    kept p (require_reconciliation-IsQuiet w) (λ _.
                      kept p (await-IsQuiet w _) (λ quote. kept p (assess-IsQuiet w p _ _ _) (λ _.
                        kept p (broker_review-IsQuiet w p) (λ review.
                          kept p (validate_approval-IsQuiet w p mode approval) (λ _.
                            bind-Triple _
                              (answered-Triple w (fact-IsStable (IsSafe-IsStable w R)) (λ s h. h.0)
                                _)
                              (λ quote'. with_fact λ quote_answer.
                                bind-Triple _
                                  (answered-Triple w (fact-IsStable (IsSafe-IsStable w R))
                                    (λ s h. h.0) _)
                                  (λ account'. with_fact λ account_answer.
                                    kept p (assess-IsQuiet w p _ _ _) (λ decided.
                                      kept p (gets-IsQuiet _) (λ current.
                                        kept p (raise_if-IsQuiet _ _) (λ _.
                                          kept p (preflight-IsQuiet w p mode) (λ _.
                                            kept p (validate_approval-IsQuiet w p mode approval)
                                              (λ _. pure-Triple _ (λ s h. (
                                                h,
                                                record {
                                                  account = account_answer;
                                                  quote = quote_answer;
                                                },
                                              ))))))))))))))))))))))

  pub place_command-Triple :
      (p : TradeProposal) (approval : Option ExactApproval) (e : Evidence) (i : OrderIntent)
      → p.environment ≡ w.environment
      → i.order_fingerprint ≡ order_fingerprint w.sha256_json p
      → Triple
          (IsSafe w R)
          (place_command w p approval e i)
          (λ c s. IsSafe w R s × Agrees i c × CarriesOut w p c)
          (IsSafe w R)
  unfolding place_command
  place_command-Triple p approval e i environment fingerprint =
      quietly w R (await-IsQuiet w _) (λ capabilities.
        quietly w R (require_capability-IsQuiet w _ _) (λ capability.
          quietly w R (deny_external-IsQuiet w _) (λ _.
            bind-Triple _ (raise_if-Triple (λ s h. h) _ _) (λ _. gets-Triple _ (λ s h. (
              h.0,
              (refl, refl, refl),
              record {
                action = refl;
                environment = environment;
                fingerprint = fingerprint;
                side = refl;
                quantity = refl;
                limit_price = refl;
              },
            ))))))

  pub execute-Triple :
      (p : TradeProposal) (approval : Option ExactApproval)
      → R p approval
      → Triple (IsSafe w R) (execute w p approval) (λ _. IsSafe w R) (IsSafe w R)
  unfolding execute order_intent pending_order
  execute-Triple p approval asked = bind-Triple _ (gather-Triple p approval) (λ e.
      with_fact λ gathered.
        bind-Triple
          (λ i s.
            (IsSafe w R s × (p.environment ≡ w.environment))
            × (i.order_fingerprint ≡ order_fingerprint w.sha256_json p))
          (gets-Triple _ (λ s h. (h, refl)))
          (λ i. with_fact λ fingerprint. with_fact λ environment.
            bind-Triple _ (place_command-Triple p approval e i environment fingerprint) (λ c.
              assuming (λ s h. (h.0, (h.1, h.2)))
                (with_fact {F = Agrees i c × CarriesOut w p c} λ facts.
                  bind-Triple (λ pending s. IsSafe w R s × (pending.intent_id ≡ i.intent_id))
                    (gets-Triple _ (λ s h. (h, refl)))
                    (λ pending. with_fact λ own.
                      bind-Triple (λ _. HasOrder w R i c)
                        (persist-Triple w R i c pending TransitionReason.command_ready own)
                        (λ _.
                          bind-Triple (λ _. IsSafe w R)
                            (submit-Triple w R i c facts.0 p approval asked e gathered pending
                              facts.1)
                            (λ order. pure-Triple _ (λ s h. h))))))))

-- ===== src/Execution/Service/Checks.antt =====
-- app/execution/service.py: what the checks of the service have found where they let a call pass.
use sentry.Prelude.{◌≡◌, refl, Bool, true, false, not, Option, none, arith, is_empty}
use sentry.Domain.Enums.{TradingMode}
use sentry.Domain.Trade.{TradeProposal, ExactApproval}
use sentry.Execution.Error.{Denial, Error}
use sentry.Execution.Service.State.{World, ServiceState}
use sentry.Execution.Service.Gates.{
  deny_latched, deny_interrupted_writes, preflight, preflight_denial, validate_approval,
  approval_denial, interrupted_write,
}
use sentry.Execution.Service.Placement.{Evidence, risk_denial, local_gate}
use sentry.Execution.Service.Rules.{
  Condition, Triple, pure-Triple, raise-Triple, gets-Triple, bind-Triple, raise_if-Triple,
  check-Triple, assuming, concluding,
}
use sentry.Execution.Service.Quiet.{IsStable, quiet-Triple, emergency_stop-IsQuiet}

module _ (w : World) {P R : Condition} (stable : IsStable R)
    (implies : (s : ServiceState) → P s → R s) where
  latched-Triple :
      (latched : Bool)
      → Triple
          (λ s. P s × (latched ≡ not (is_empty s.interrupted_write_intents)))
          (deny_latched w latched)
          (λ _ s. P s × (is_empty s.interrupted_write_intents ≡ true))
          R
  latched-Triple true =
      assuming (λ s h. implies s h.0)
        (bind-Triple (λ _. R)
          (quiet-Triple stable (λ s r. r) (emergency_stop-IsQuiet interrupted_write))
          (λ _. raise-Triple (Error.denied Denial.interrupted_latch) (λ s r. r)))
  latched-Triple false = pure-Triple tt (λ s h. (h.0, ground arith))

  pub deny_interrupted_writes-Triple :
      Triple P
        (deny_interrupted_writes w)
        (λ _ s. P s × (is_empty s.interrupted_write_intents ≡ true))
        R
  unfolding deny_interrupted_writes
  deny_interrupted_writes-Triple =
      bind-Triple (λ l s. P s × (l ≡ not (is_empty s.interrupted_write_intents)))
        (gets-Triple _ (λ s p. (p, refl))) latched-Triple

  pub preflight-Triple :
      (p : TradeProposal) (mode : TradingMode)
      → Triple P
          (preflight w p mode)
          (λ _ s.
            (P s × (is_empty s.interrupted_write_intents ≡ true))
            × (preflight_denial w p mode s ≡ none))
          R
  unfolding preflight
  preflight-Triple p mode =
      bind-Triple _ deny_interrupted_writes-Triple
        (λ _. check-Triple (λ s h. implies s h.0) (preflight_denial w p mode))

-- What the last checks of a placement have found.
pub record IsCleared (w : World) (p : TradeProposal) (approval : Option ExactApproval)
    (e : Evidence) (s : ServiceState) : Type 0 where
  pub mode : TradingMode
  pub mode_now : mode ≡ w.trading_mode s.turn
  pub preflight : preflight_denial w p mode s ≡ none
  pub approved : approval_denial w p mode approval s ≡ none
  pub risk : risk_denial w p e.effective_account e.quote s ≡ none

module _ (w : World) {P : Condition} (stable : IsStable P) where
  pub local_gate-Triple :
      (p : TradeProposal) (approval : Option ExactApproval) (e : Evidence)
      → Triple P (local_gate w p approval e) (λ _ s. P s × IsCleared w p approval e s) P
  unfolding local_gate validate_approval
  local_gate-Triple p approval e =
      bind-Triple (λ mode s. P s × (mode ≡ w.trading_mode s.turn))
        (gets-Triple _ (λ s h. (h, refl)))
        (λ mode. bind-Triple _ (raise_if-Triple (λ s h. h.0) _ _) (λ _.
          bind-Triple _ (preflight-Triple w stable (λ s h. h.0.0) p mode) (λ _.
            bind-Triple _ (check-Triple (λ s h. h.0.0.0.0) (approval_denial w p mode approval))
              (λ _.
                concluding
                  (λ _ s h. (
                    h.0.0.0.0.0.0,
                    record {
                      mode = mode;
                      mode_now = h.0.0.0.0.0.1;
                      preflight = h.0.0.1;
                      approved = h.0.1;
                      risk = h.1;
                    },
                  ))
                  (check-Triple (λ s h. h.0.0.0.0.0)
                    (risk_denial w p e.effective_account e.quote))))))

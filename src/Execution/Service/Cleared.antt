-- ===== src/Execution/Service/Cleared.antt =====
-- app/execution/service.py: a placement that its last checks have cleared is authorized.
use sentry.Prelude.{◌≡◌, ◌≢◌, refl, ap, ◌∙◌, inl, inr, true, false, ◌&&◌, Option, none, some, arith}
use sentry.Domain.Market.{Time}
use sentry.Domain.Enums.{
  ExecutionEnvironment, TradingMode, BrokerAction, is_live, is_buy, same_mode,
}
use sentry.Domain.Trade.{TradeProposal, ExactApproval, order_fingerprint, is_valid_for}
use sentry.Domain.Order.{BrokerCommandIntent}
use sentry.Safety.RuntimeState.{permits_new_entry, permits_risk_reducing_exit}
use sentry.Execution.Service.State.{World, ServiceState}
use sentry.Execution.Service.Gates.{
  preflight_denial, approval_denial, approval_required, approves, is_research,
}
use sentry.Execution.Service.Placement.{Evidence, risk_denial}
use sentry.Execution.Service.Quiet.{Answered}
use sentry.Execution.Service.Checks.{IsCleared}
use sentry.Execution.Service.Sent.{IsPlacement, NeedsApproval, IsApproved}

-- The command has the terms of the proposal.
pub record CarriesOut (w : World) (p : TradeProposal) (c : BrokerCommandIntent) : Type 0 where
  pub action : c.action ≡ BrokerAction.place_option_order
  pub environment : p.environment ≡ w.environment
  pub fingerprint : c.order_fingerprint ≡ order_fingerprint w.sha256_json p
  pub side : c.side ≡ p.side
  pub quantity : c.quantity ≡ p.quantity
  pub limit_price : c.limit_price ≡ p.limit_price

-- The evidence of a placement holds what the broker and the quotes have answered.
pub record IsGathered (w : World) (p : TradeProposal) (e : Evidence) : Type 0 where
  pub account : Answered w.effective_account e.effective_account
  pub quote : Answered (λ t. w.option_quote t p.contract.instrument_id) e.quote

module _ (w : World) (p : TradeProposal) (mode : TradingMode) (s : ServiceState)
    (passed : preflight_denial w p mode s ≡ none) where
  preflight-not_research : is_research mode ≡ false
  unfolding preflight_denial
  preflight-not_research = ground arith

  preflight-not_live_shadow : (is_live w.environment && same_mode mode TradingMode.shadow) ≡ false
  unfolding preflight_denial
  preflight-not_live_shadow = ground arith

  no_research : mode ≢ TradingMode.research
  no_research e =
      let found : is_research mode ≡ true = ap is_research e in cc (found, preflight-not_research)

  no_live_shadow : w.environment ≡ ExecutionEnvironment.live → mode ≢ TradingMode.shadow
  no_live_shadow live e =
      let both : (is_live w.environment && same_mode mode TradingMode.shadow) ≡ true =
        rw (live, e) refl in
      cc (both, preflight-not_live_shadow)

  preflight-kill_switch : w.kill_switch_active s.turn ≡ false
  unfolding preflight_denial
  preflight-kill_switch = ground arith

  preflight-healthy : w.healthcheck s.turn ≡ true
  unfolding preflight_denial
  preflight-healthy = ground arith

  preflight-entry : is_buy p.side ≡ true → permits_new_entry s.safety ≡ true
  unfolding preflight_denial permits_new_entry
  preflight-entry buy = ground arith

  preflight-exit : is_buy p.side ≡ false → permits_risk_reducing_exit s.safety ≡ true
  unfolding preflight_denial permits_risk_reducing_exit
  preflight-exit sell = ground arith

module _ (w : World) (p : TradeProposal) (approval : Option ExactApproval) (s : ServiceState) where
  approval-approved :
      (mode : TradingMode)
      → approval_denial w p mode approval s ≡ none
      → approval_required w mode p ≡ true
      → approves w approval p (w.now s.turn) ≡ true
  unfolding approval_denial
  approval-approved mode e required = ground arith

  needs_required : (mode : TradingMode) → NeedsApproval mode p → approval_required w mode p ≡ true
  needs_required mode (inl asked) = ground arith
  needs_required mode (inr (asked, buys)) = ground arith

  approves-IsApproved :
      (given : Option ExactApproval) (now : Time)
      → approves w given p now ≡ true
      → IsApproved w given p now
  unfolding is_valid_for
  approves-IsApproved none now h = absurd (cc (h))
  approves-IsApproved (some a) now h = (
    a,
    refl,
    ground arith,
    ground arith,
    ground arith,
    ground arith,
    ground arith,
    ground arith,
    ground arith,
    ground arith,
  )

  pub IsCleared-IsPlacement :
      (c : BrokerCommandIntent)
      → CarriesOut w p c
      → (e : Evidence) → IsGathered w p e
      → IsCleared w p approval e s
      → IsPlacement w (record { command = c; turn = s.turn; controller = s.safety }) p approval
  unfolding risk_denial
  IsCleared-IsPlacement c terms e gathered h = record {
    action = terms.action;
    environment = terms.environment;
    fingerprint = terms.fingerprint;
    side = terms.side;
    quantity = terms.quantity;
    limit_price = terms.limit_price;
    not_research = λ e. no_research w p h.mode s h.preflight (h.mode_now ∙ e);
    not_live_shadow = λ live e. no_live_shadow w p h.mode s h.preflight live (h.mode_now ∙ e);
    kill_switch = preflight-kill_switch w p h.mode s h.preflight;
    healthy = preflight-healthy w p h.mode s h.preflight;
    entry = preflight-entry w p h.mode s h.preflight;
    exit = preflight-exit w p h.mode s h.preflight;
    approved = λ required. approves-IsApproved approval (w.now s.turn) (
        approval-approved h.mode h.approved
          (ap (λ m. approval_required w m p) h.mode_now ∙ needs_required _ required));
    account_turn = gathered.account.0;
    account = e.effective_account;
    account_answer = gathered.account.1;
    quote_turn = gathered.quote.0;
    quote = e.quote;
    quote_answer = gathered.quote.1;
    within_risk = ground (arith, h.risk);
  }

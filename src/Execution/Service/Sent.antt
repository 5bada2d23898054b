-- ===== src/Execution/Service/Sent.antt =====
-- app/execution/service.py: what holds of the commands that the service has handed to the broker.
use mathlib.Core.Path.{subst}
use sentry.Execution.Error.{ok}
use sentry.Prelude.{
  ℕ, ◌≡◌, ◌≢◌, ◌≤◌, sym, ◌⊎◌, true, false, Option, some, List, [], ◌∷◌, is_some, All,
}
use sentry.Prelude.Dict.{lookup}
use sentry.Domain.Enums.{ExecutionEnvironment, TradingMode, BrokerAction, OrderSide, is_buy}
use sentry.Domain.Market.{AccountSnapshot, OptionQuote, Time}
use sentry.Domain.Trade.{TradeProposal, ExactApproval, order_fingerprint}
use sentry.Domain.Order.{OrderIntent, BrokerCommandIntent}
use sentry.Safety.RuntimeState.{permits_new_entry, permits_risk_reducing_exit}
use sentry.Risk.Engine.{evaluate}
use sentry.Execution.Store.{Store}
use sentry.Execution.Store.Grows.{Grows, IsIndexed, IsAllowed}
use sentry.Execution.Service.State.{World, ServiceState, Transmission}
use sentry.Execution.Service.Quiet.{IsStable}

-- The command, the intent that it carries out and an order of that intent are in the store.
pub record IsRecorded (s : Store) (c : BrokerCommandIntent) : Type 0 where
  pub intent : OrderIntent
  pub stored : lookup c.order_intent_id s.order_intents ≡ some intent
  pub command : lookup c.command_intent_id s.command_intents ≡ some c
  pub order : is_some (lookup c.order_intent_id s.orders) ≡ true
  pub fingerprint : intent.order_fingerprint ≡ c.order_fingerprint
  pub key : intent.idempotency_key ≡ c.idempotency_key

-- Two commands differ in intent, fingerprint and idempotency key.
abbrev pub Different : BrokerCommandIntent → BrokerCommandIntent → Type 0
Different c d =
    (c.order_intent_id ≢ d.order_intent_id)
    × (c.order_fingerprint ≢ d.order_fingerprint)
    × (c.idempotency_key ≢ d.idempotency_key)

-- Any two of the transmissions carry different commands.
abbrev pub AllDifferent : List Transmission → Type 0
AllDifferent [] = Unit
AllDifferent (x ∷ rest) = All (λ y. Different x.command y.command) rest × AllDifferent rest

-- The modes that ask for an approval: APPROVAL for any order, EXIT_AUTO for a purchase.
abbrev pub NeedsApproval : TradingMode → TradeProposal → Type 0
NeedsApproval mode p =
    (mode ≡ TradingMode.approval)
    ⊎ ((mode ≡ TradingMode.exit_auto) × (p.side ≡ OrderSide.buy_to_open))

-- The approval was given, for this very order, and is neither of the future, rejected nor expired.
abbrev pub IsApproved : World → Option ExactApproval → TradeProposal → Time → Type 0
IsApproved w approval p now =
    (a : ExactApproval) × (approval ≡ some a)
    × (a.created_at ≤ now)
    × (now ≤ a.expires_at)
    × (a.rejected ≡ false)
    × (a.environment ≡ p.environment)
    × (a.namespace ≡ p.namespace)
    × (a.proposal_id ≡ p.proposal_id)
    × (a.order_fingerprint ≡ order_fingerprint w.sha256_json p)
    × (p.limit_price ≤ a.maximum_limit_price)

module _ (w : World) (x : Transmission) where
  -- A placement carries out a proposal that passed every check in the turn of the transmission.
  pub record IsPlacement (p : TradeProposal) (approval : Option ExactApproval) : Type 0 where
    pub action : x.command.action ≡ BrokerAction.place_option_order
    pub environment : p.environment ≡ w.environment
    pub fingerprint : x.command.order_fingerprint ≡ order_fingerprint w.sha256_json p
    pub side : x.command.side ≡ p.side
    pub quantity : x.command.quantity ≡ p.quantity
    pub limit_price : x.command.limit_price ≡ p.limit_price
    pub not_research : w.trading_mode x.turn ≢ TradingMode.research
    pub not_live_shadow :
        w.environment ≡ ExecutionEnvironment.live → w.trading_mode x.turn ≢ TradingMode.shadow
    pub kill_switch : w.kill_switch_active x.turn ≡ false
    pub healthy : w.healthcheck x.turn ≡ true
    pub entry : is_buy p.side ≡ true → permits_new_entry x.controller ≡ true
    pub exit : is_buy p.side ≡ false → permits_risk_reducing_exit x.controller ≡ true
    pub approved : NeedsApproval (w.trading_mode x.turn) p → IsApproved w approval p (w.now x.turn)
    pub account_turn : ℕ
    pub account : AccountSnapshot
    pub account_answer : w.effective_account account_turn ≡ ok account
    pub quote_turn : ℕ
    pub quote : OptionQuote
    pub quote_answer : w.option_quote quote_turn p.contract.instrument_id ≡ ok quote
    pub within_risk : (evaluate w.risk_engine (w.now x.turn) p account quote).allowed ≡ true

  pub record IsCancellation : Type 0 where
    pub action : x.command.action ≡ BrokerAction.cancel_option_order
    pub kill_switch : w.kill_switch_active x.turn ≡ false
    pub healthy : w.healthcheck x.turn ≡ true
    pub exit : permits_risk_reducing_exit x.controller ≡ true

-- Which proposals the service was asked to execute, each with the approval that its caller gave.
abbrev pub Requested : Type 1
Requested = TradeProposal → Option ExactApproval → Type 0

-- A placement that the service was asked for, or a cancellation.
abbrev pub IsAuthorized : World → Requested → Transmission → Type 0
IsAuthorized w R x =
    ((p : TradeProposal) × (approval : Option ExactApproval) × R p approval
      × IsPlacement w x p approval)
    ⊎ IsCancellation w x

pub record IsSafe (w : World) (R : Requested) (s : ServiceState) : Type 0 where
  pub indexed : IsIndexed s.store
  pub lawful : All IsAllowed s.store.transitions
  pub recorded : All (λ x. IsRecorded s.store x.command) s.sent
  pub different : AllDifferent s.sent
  pub authorized : All (IsAuthorized w R) s.sent

pub IsRecorded-Grows :
    {s t : Store} (c : BrokerCommandIntent) → Grows s t → IsRecorded s c → IsRecorded t c
IsRecorded-Grows c g r = record {
  intent = r.intent;
  stored = g.intents _ _ r.stored;
  command = g.commands _ _ r.command;
  order = g.orders _ r.order;
  fingerprint = r.fingerprint;
  key = r.key;
}

All-imp : {A : Type 0} (P Q : A → Type 0) (l : List A) → ((a : A) → P a → Q a) → All P l → All Q l
All-imp P Q [] h all = tt
All-imp P Q (a ∷ l) h all = (h a all.0, All-imp P Q l h all.1)

pub IsSafe-IsStable : (w : World) (R : Requested) → IsStable (IsSafe w R)
IsSafe-IsStable w R = record {
  at = λ {s} {t} q x. record {
    indexed = q.grows.indexed x.indexed;
    lawful = q.grows.lawful x.lawful;
    recorded =
        subst (All (λ x. IsRecorded t.store x.command)) (sym q.same_sent)
          (All-imp _ _ s.sent (λ x. IsRecorded-Grows x.command q.grows) x.recorded);
    different = subst AllDifferent (sym q.same_sent) x.different;
    authorized = subst (All (IsAuthorized w R)) (sym q.same_sent) x.authorized;
  };
}

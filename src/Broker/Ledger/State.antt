-- ===== src/Broker/Ledger/State.antt =====
-- app/broker/shadow_ledger.py: the fields of `ShadowLedger`, and the monad of its methods, in which
-- what was written before a raise stays written.
use sentry.Prelude.{ℕ, ⊤, Bool, true, false, Option, List, []}
use sentry.Prelude.Int.{ℤ, pos}
use sentry.Prelude.Dict.{Dict}
use sentry.Domain.Enums.{ExecutionEnvironment, AccountKind, OrderState}
use sentry.Domain.Market.{Uuid, Label, Time, Day, Money, OptionQuote}
use sentry.Domain.Trade.{TradeProposal}
use sentry.Domain.Order.{BrokerCommandIntent, BrokerOrder, Fill, Position}
use sentry.Broker.FillModel.{FillModel}

pub record DepositRecord : Type 0 where
  pub amount : Money
  pub deposited_at : Time
  pub reference : Label

-- The class `_LedgerOrder`.
pub record LedgerOrder : Type 0 where
  pub published : BrokerOrder
  pub command : BrokerCommandIntent

-- The texts that a rejected submission and a review give.
pub data Warning : Type 0 where
  wrong_environment wrong_namespace contract_expired no_quote not_latest_quote : Warning
  from_future stale insufficient_buying_power insufficient_position : Warning

pub record ShadowLedger : Type 0 where
  pub initial_cash : Money
  pub cash : ℤ
  pub account_kind : AccountKind
  pub environment : ExecutionEnvironment
  pub max_quote_age : ℕ
  pub namespace : Label
  pub orders : Dict LedgerOrder
  pub order_by_idempotency : Dict Uuid
  pub positions : Dict Position
  pub fills : List Fill
  pub quotes : Dict OptionQuote
  pub proposals : Dict TradeProposal
  pub rejection_reasons : Dict (List Warning)
  pub deposits : List DepositRecord
  pub entry_orders_by_date : Dict (List Uuid)
  pub realized_pnl : ℤ
  pub closed_realized_pnl : Dict ℤ

-- `__init__`, on settings that pass its checks.
unfoldable pub new : Money → AccountKind → ℕ → Label → ShadowLedger
new initial_cash account_kind max_quote_age namespace = record {
  initial_cash = initial_cash;
  cash = pos initial_cash;
  account_kind = account_kind;
  environment = ExecutionEnvironment.demo;
  max_quote_age = max_quote_age;
  namespace = namespace;
  orders = [];
  order_by_idempotency = [];
  positions = [];
  fills = [];
  quotes = [];
  proposals = [];
  rejection_reasons = [];
  deposits = [];
  entry_orders_by_date = [];
  realized_pnl = pos 0;
  closed_realized_pnl = [];
}

-- What a call takes from outside the class: the injected fill model, the clock's reading, the date
-- in New York of a time, and the identifiers and hashes that the standard library makes.
pub record Context : Type 0 where
  pub fill_model : FillModel
  pub now : Time
  pub market_date : Time → Day
  pub order_id : Uuid → Uuid
  pub fill_id : ℕ → Uuid
  pub position_id : ℕ → Uuid
  pub command_hash : BrokerCommandIntent → Label
  pub parse_uuid : Label → Option Uuid

-- The raises of the methods; the first three are `DataInvalidError`.
pub data Error : Type 0 where
  future_quote quote_reused quote_out_of_order contract_reused : Error
  fill_quantity fill_price buy_over_limit sell_under_limit cash_negative sell_exceeds_position :
      Error
  command_environment command_namespace wrong_action wrong_instrument : Error
  proposal_instrument proposal_terms proposal_limit : Error
  idempotency_reused missing_key unknown_order not_cancelable : Error
  deposit_not_positive future_expiration negative_settlement : Error

pub data Result (A : Type 0) : Type 0 where
  ok : A → Result A
  err : Error → Result A

abbrev pub Action : Type 0 → Type 0
Action A = ShadowLedger → Result A × ShadowLedger

module _ {A : Type 0} where
  abbrev pub pure : A → Action A
  pure a l = (ok a, l)

  abbrev pub raise : Error → Action A
  raise e l = (err e, l)

  abbrev pub gets : (ShadowLedger → A) → Action A
  gets f l = (ok (f l), l)

infixl 5 ◌>>=◌ ◌>>◌
abbrev pub ◌>>=◌ : {A B : Type 0} → Action A → (A → Action B) → Action B
◌>>=◌ m f l = let (r, l') = m l in elim r [ ok a ↦ f a l' | err e ↦ raise e l' ]

abbrev pub ◌>>◌ : {A B : Type 0} → Action A → Action B → Action B
m >> k = m >>= λ _. k

abbrev pub modify : (ShadowLedger → ShadowLedger) → Action ⊤
modify f l = (ok tt, f l)

-- `if test: raise error`
abbrev pub raise_if : Bool → Error → Action ⊤
raise_if true e l = (err e, l)
raise_if false e l = (ok tt, l)

-- `_OPEN_STATES` and `_TERMINAL_STATES`
abbrev pub is_open : OrderState → Bool
is_open OrderState.opened = true
is_open OrderState.partial = true
is_open _ = false

abbrev pub is_terminal : OrderState → Bool
is_terminal OrderState.filled = true
is_terminal OrderState.canceled = true
is_terminal OrderState.rejected = true
is_terminal OrderState.expired = true
is_terminal _ = false

-- ===== src/Domain/Enums.antt =====
-- app/domain/enums.py: each `StrEnum` is a data type with the source's members; `is` and `in` are
-- tests by clauses. `OPEN` is spelled `opened`, since `open` is a reserved word.
use sentry.Prelude.{ℕ, Bool, true, false, ◌==◌}

pub data ExecutionEnvironment : Type 0 where
  demo live : ExecutionEnvironment

pub data TradingMode : Type 0 where
  research shadow approval exit_auto auto : TradingMode

pub data RuntimeSafetyState : Type 0 where
  normal entry_disabled exit_only halted : RuntimeSafetyState

pub data AttentionLevel : Type 0 where
  background watch candidate trade_worthy deep_research position : AttentionLevel

pub data OptionType : Type 0 where
  call put : OptionType

pub data OrderSide : Type 0 where
  buy_to_open sell_to_close : OrderSide

pub data BrokerAction : Type 0 where
  place_option_order cancel_option_order replace_option_order : BrokerAction

pub data OrderState : Type 0 where
  proposed reviewed approved intent_persisted submitting submission_unknown : OrderState
  opened partial filled canceled rejected expired : OrderState

pub data AccountKind : Type 0 where
  broker_observed simulated shadow : AccountKind

pub data FirewallDisposition : Type 0 where
  blocked_shadow blocked_policy authorized_live : FirewallDisposition

abbrev pub is_live : ExecutionEnvironment → Bool
is_live ExecutionEnvironment.live = true
is_live ExecutionEnvironment.demo = false

abbrev pub same_environment : ExecutionEnvironment → ExecutionEnvironment → Bool
same_environment ExecutionEnvironment.demo ExecutionEnvironment.demo = true
same_environment ExecutionEnvironment.live ExecutionEnvironment.live = true
same_environment _ _ = false

abbrev pub is_buy : OrderSide → Bool
is_buy OrderSide.buy_to_open = true
is_buy OrderSide.sell_to_close = false

abbrev pub same_side : OrderSide → OrderSide → Bool
same_side OrderSide.buy_to_open OrderSide.buy_to_open = true
same_side OrderSide.sell_to_close OrderSide.sell_to_close = true
same_side _ _ = false

abbrev pub same_type : OptionType → OptionType → Bool
same_type OptionType.call OptionType.call = true
same_type OptionType.put OptionType.put = true
same_type _ _ = false

abbrev pub is_place : BrokerAction → Bool
is_place BrokerAction.place_option_order = true
is_place _ = false

abbrev pub is_cancel : BrokerAction → Bool
is_cancel BrokerAction.cancel_option_order = true
is_cancel _ = false

abbrev pub same_kind : AccountKind → AccountKind → Bool
same_kind AccountKind.broker_observed AccountKind.broker_observed = true
same_kind AccountKind.simulated AccountKind.simulated = true
same_kind AccountKind.shadow AccountKind.shadow = true
same_kind _ _ = false

abbrev pub is_broker_observed : AccountKind → Bool
is_broker_observed AccountKind.broker_observed = true
is_broker_observed _ = false

-- A member's position in its class, to compare members.
abbrev pub mode_index : TradingMode → ℕ
mode_index TradingMode.research = 0
mode_index TradingMode.shadow = 1
mode_index TradingMode.approval = 2
mode_index TradingMode.exit_auto = 3
mode_index TradingMode.auto = 4

abbrev pub same_mode : TradingMode → TradingMode → Bool
same_mode m n = mode_index m == mode_index n

abbrev pub state_index : OrderState → ℕ
state_index OrderState.proposed = 0
state_index OrderState.reviewed = 1
state_index OrderState.approved = 2
state_index OrderState.intent_persisted = 3
state_index OrderState.submitting = 4
state_index OrderState.submission_unknown = 5
state_index OrderState.opened = 6
state_index OrderState.partial = 7
state_index OrderState.filled = 8
state_index OrderState.canceled = 9
state_index OrderState.rejected = 10
state_index OrderState.expired = 11

abbrev pub same_state : OrderState → OrderState → Bool
same_state s t = state_index s == state_index t

abbrev pub is_unknown : OrderState → Bool
is_unknown OrderState.submission_unknown = true
is_unknown _ = false

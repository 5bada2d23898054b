-- ===== src/Domain/Order.antt =====
-- app/domain/models.py, what an order leaves behind: intents, commands, broker orders, fills and
-- positions.
use sentry.Prelude.{ℕ, Bool, List, Option}
use sentry.Prelude.Int.{ℤ}
use sentry.Domain.Enums.{ExecutionEnvironment, OrderSide, BrokerAction, OrderState}
use sentry.Domain.Market.{Uuid, Label, Time, Money, OptionContract}

pub record OrderIntent : Type 0 where
  pub intent_id : Uuid
  pub created_at : Time
  pub environment : ExecutionEnvironment
  pub namespace : Label
  pub proposal_id : Uuid
  pub risk_decision_id : Uuid
  pub approval_id : Option Uuid
  pub review_id : Uuid
  pub order_fingerprint : Label
  pub idempotency_key : Label
  pub action : BrokerAction

-- The mapping of `validated_arguments`: what the service builds for a placement (`_default_arguments`,
-- whose `time_in_force` is "day") and for a cancellation, or what an injected builder gives.
pub data Arguments : Type 0 where
  placement :
      (instrument_id : Label)
      → OrderSide
      → (quantity : ℕ) → (limit_price : Money) → (client_order_id : Label) → Arguments
  cancellation : (order_id : Label) → (client_order_id : Label) → Arguments
  given : ℕ → Arguments

pub record BrokerCommandIntent : Type 0 where
  pub command_intent_id : Uuid
  pub created_at : Time
  pub order_intent_id : Uuid
  pub environment : ExecutionEnvironment
  pub namespace : Label
  pub action : BrokerAction
  pub capability_name : Label
  pub capability_schema_version : Label
  pub capability_schema_hash : Label
  pub instrument_id : Label
  pub side : OrderSide
  pub quantity : ℕ
  pub limit_price : Money
  pub is_day : Bool
  pub validated_arguments : Arguments
  pub proposal_id : Uuid
  pub risk_decision_id : Uuid
  pub approval_id : Option Uuid
  pub quote_snapshot_id : Uuid
  pub broker_observed_account_snapshot_id : Option Uuid
  pub effective_account_snapshot_id : Uuid
  pub policy_version : Label
  pub order_fingerprint : Label
  pub idempotency_key : Label

pub record BrokerOrder : Type 0 where
  pub order_id : Uuid
  pub broker_order_id : Option Label
  pub intent_id : Uuid
  pub environment : ExecutionEnvironment
  pub state : OrderState
  pub contract : OptionContract
  pub side : OrderSide
  pub quantity : ℕ
  pub filled_quantity : ℕ
  pub limit_price : Money
  pub average_fill_price : Option Money
  pub submitted_at : Option Time

pub record Fill : Type 0 where
  pub fill_id : Uuid
  pub created_at : Time
  pub order_id : Uuid
  pub quantity : ℕ
  pub price : Money
  pub market_event_id : Uuid
  pub deterministic_seed : ℕ

pub record Position : Type 0 where
  pub position_id : Uuid
  pub environment : ExecutionEnvironment
  pub contract : OptionContract
  pub quantity : ℕ
  pub average_entry_price : Money
  pub current_bid : Money
  pub current_ask : Money
  pub realized_pnl : ℤ
  pub best_unrealized_pnl : ℤ
  pub worst_unrealized_pnl : ℤ
  pub thesis_id : Uuid
  pub invalidation_conditions : List Label
  pub exit_policy_version : Label

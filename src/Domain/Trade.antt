-- ===== src/Domain/Trade.antt =====
-- app/domain/models.py, what leads to an order: the proposal, the risk decision, the exact approval
-- and the broker's review.
use sentry.Prelude.{ℕ, ◌*◌, Bool, not, ◌&&◌, List, leb, ◌==◌, is_empty}
use sentry.Domain.Enums.{ExecutionEnvironment, OrderSide, same_environment}
use sentry.Domain.Market.{Uuid, Label, Time, Money, OptionContract}

-- `limit_decimals` is how many decimal places the `Decimal` of the limit is written with.
pub record TradeProposal : Type 0 where
  pub proposal_id : Uuid
  pub environment : ExecutionEnvironment
  pub namespace : Label
  pub packet_id : Uuid
  pub contract : OptionContract
  pub side : OrderSide
  pub quantity : ℕ
  pub limit_price : Money
  pub limit_decimals : ℕ
  pub quote_snapshot_id : Uuid
  pub quote_as_of : Time
  pub policy_version : Label
  pub risk_config_version : Label
  pub invalidation_conditions : List Label

-- The property `TradeProposal.max_loss`.
unfoldable pub max_loss : TradeProposal → Money
max_loss p = p.limit_price * p.quantity * p.contract.multiplier

-- What `TradeProposal.order_fingerprint` hashes. The text of the limit is its amount and the number of
-- its decimal places, so that 1.5 and 1.50 differ.
pub record FingerprintFields : Type 0 where
  pub environment : ExecutionEnvironment
  pub namespace : Label
  pub contract : Label
  pub side : OrderSide
  pub quantity : ℕ
  pub limit_price : Money
  pub limit_decimals : ℕ
  pub proposal_id : Uuid

abbrev pub order_fingerprint : (FingerprintFields → Label) → TradeProposal → Label
order_fingerprint sha256_json p = sha256_json (record {
  environment = p.environment;
  namespace = p.namespace;
  contract = p.contract.instrument_id;
  side = p.side;
  quantity = p.quantity;
  limit_price = p.limit_price;
  limit_decimals = p.limit_decimals;
  proposal_id = p.proposal_id;
})

-- `R` is the type of the rule names.
pub record RiskDecision (R : Type 0) : Type 0 where
  pub created_at : Time
  pub environment : ExecutionEnvironment
  pub proposal_id : Uuid
  pub allowed : Bool
  pub failed_rules : List R
  pub passed_rules : List R
  pub account_snapshot_id : Uuid
  pub proposed_max_loss : Money
  pub resulting_aggregate_risk : Money
  pub data_fresh : Bool
  pub risk_config_version : Label

-- `RiskDecision.consistent_result`: the validator raises where this fails.
abbrev pub consistent_result : {R : Type 0} → RiskDecision R → Bool
consistent_result d =
    not (d.allowed && not (is_empty d.failed_rules))
    && not (not d.allowed && is_empty d.failed_rules)

pub record ExactApproval : Type 0 where
  pub approval_id : Uuid
  pub created_at : Time
  pub environment : ExecutionEnvironment
  pub namespace : Label
  pub proposal_id : Uuid
  pub order_fingerprint : Label
  pub maximum_limit_price : Money
  pub expires_at : Time
  pub rejected : Bool

-- The method `ExactApproval.is_valid_for`.
unfoldable pub is_valid_for :
    (FingerprintFields → Label) → ExactApproval → TradeProposal → Time → Bool
is_valid_for sha256_json a p at =
    not a.rejected
    && same_environment a.environment p.environment
    && a.namespace == p.namespace
    && a.proposal_id == p.proposal_id
    && a.order_fingerprint == order_fingerprint sha256_json p
    && leb p.limit_price a.maximum_limit_price
    && leb at a.expires_at

pub record BrokerReview : Type 0 where
  pub review_id : Uuid
  pub environment : ExecutionEnvironment
  pub proposal_id : Uuid
  pub accepted : Bool
  pub side_effect_free : Bool

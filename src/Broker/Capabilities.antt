-- ===== src/Broker/Capabilities.antt =====
-- app/broker/base.py: what a broker says that it can do, and whether a command fits it.
use sentry.Prelude.{
  ℕ, Bool, true, false, ◌&&◌, Option, none, some, List, [], ◌∷◌, ◌==◌, if◌then◌else◌,
}
use sentry.Domain.Enums.{BrokerAction, OrderSide, same_side}
use sentry.Domain.Market.{Label, Money}
use sentry.Domain.Order.{BrokerCommandIntent, Arguments}

-- `CapabilityDescriptor`, without its schema and its annotations.
pub record CapabilityDescriptor : Type 0 where
  pub capability : Label
  pub tool_name : Label
  pub schema_version : Label
  pub schema_hash : Label
  pub available : Bool

-- `BrokerCapabilities`, with the fields that are read for a write.
pub record BrokerCapabilities : Type 0 where
  pub descriptors : List CapabilityDescriptor
  pub cancel_option_orders : Bool
  pub external_writes_enabled : Bool
  pub execution_ready : Bool

-- The value of a `BrokerAction`, which names its capability.
abbrev pub action_value : BrokerAction → Label
action_value BrokerAction.place_option_order = 0
action_value BrokerAction.cancel_option_order = 1
action_value BrokerAction.replace_option_order = 2

-- `BrokerCapabilities.descriptor_for_action`
unfoldable pub descriptor_for_action :
    BrokerAction → List CapabilityDescriptor → Option CapabilityDescriptor
descriptor_for_action action [] = none
descriptor_for_action action (d ∷ rest) =
    if d.capability == action_value action && d.available
    then some d
    else descriptor_for_action action rest

-- What `_first_argument` finds of the order in the arguments: a value that is absent or null is none.
-- A price that is no number is the inner none of `limit_price`.
pub record OrderArguments : Type 0 where
  pub instrument_id : Option Label
  pub quantity : Option ℕ
  pub limit_price : Option (Option Money)
  pub side : Option OrderSide

-- The arguments of `_default_arguments` and of a cancellation; `read` reads those of another builder.
abbrev pub order_arguments : (ℕ → OrderArguments) → Arguments → OrderArguments
order_arguments read (Arguments.placement instrument_id side quantity limit_price key) = record {
  instrument_id = some instrument_id;
  quantity = some quantity;
  limit_price = some (some limit_price);
  side = some side;
}
order_arguments read (Arguments.cancellation order_id key) = record {
  instrument_id = none;
  quantity = none;
  limit_price = none;
  side = none;
}
order_arguments read (Arguments.given n) = read n

-- Whether a value that is given is the command's.
abbrev pub agrees {ℓ} : {A : Type ℓ} → (A → Bool) → Option A → Bool
agrees same none = true
agrees same (some a) = same a

abbrev same_price : Money → Option Money → Bool
same_price price none = false
same_price price (some p) = p == price

-- The duplicated fields of the exact order.
unfoldable pub arguments_match : (ℕ → OrderArguments) → BrokerCommandIntent → Bool
arguments_match read command =
    let given = order_arguments read command.validated_arguments in
    agrees (λ i. i == command.instrument_id) given.instrument_id
    && agrees (λ q. q == command.quantity) given.quantity
    && agrees (same_price command.limit_price) given.limit_price
    && agrees (λ side. same_side side command.side) given.side

abbrev matches_descriptor :
    (CapabilityDescriptor → Arguments → Bool)
    → (ℕ → OrderArguments)
    → BrokerCommandIntent
    → Option CapabilityDescriptor
    → Bool
matches_descriptor validate read command none = false
matches_descriptor validate read command (some d) =
    command.capability_name == d.tool_name
    && command.capability_schema_version == d.schema_version
    && command.capability_schema_hash == d.schema_hash
    && validate d command.validated_arguments
    && arguments_match read command

-- `validate_command_for_capability`: false where it raises. `validate` is the schema validation.
unfoldable pub command_fits :
    (CapabilityDescriptor → Arguments → Bool)
    → (ℕ → OrderArguments)
    → BrokerCommandIntent
    → BrokerCapabilities
    → Bool
command_fits validate read command capabilities =
    matches_descriptor validate read command
      (descriptor_for_action command.action capabilities.descriptors)

-- ===== src/Safety/WriteFirewall.antt =====
-- app/safety/write_firewall.py. The recorder is a callback that is only told of a decision.
use sentry.Prelude.{Bool, false, not, ◌||◌, Option, none, some, if◌then◌else◌}
use sentry.Domain.Enums.{ExecutionEnvironment, FirewallDisposition, is_live}
use sentry.Domain.Enums.FirewallDisposition.{blocked_shadow, blocked_policy, authorized_live}
use sentry.Domain.Market.{Uuid}
use sentry.Domain.Order.{BrokerCommandIntent}

-- `FirewallDecision` of app/domain/models.py.
pub record FirewallDecision : Type 0 where
  pub command_intent_id : Uuid
  pub environment : ExecutionEnvironment
  pub disposition : FirewallDisposition
  pub transmitted : Bool

-- `DenyAllWriteFirewall.evaluate`; `none` stands for its `SafetyCriticalError`.
unfoldable pub deny_all : BrokerCommandIntent → Option FirewallDecision
deny_all command =
    if is_live command.environment
    then none
    else some (record {
      command_intent_id = command.command_intent_id;
      environment = command.environment;
      disposition = blocked_shadow;
      transmitted = false;
    })

-- `LiveWriteAuthorizer.evaluate`
unfoldable pub authorize : Bool → BrokerCommandIntent → FirewallDecision
authorize explicitly_authorized command =
    if not (is_live command.environment) || not explicitly_authorized
    then record {
      command_intent_id = command.command_intent_id;
      environment = command.environment;
      disposition = blocked_policy;
      transmitted = false;
    }
    else record {
      command_intent_id = command.command_intent_id;
      environment = command.environment;
      disposition = authorized_live;
      transmitted = false;
    }

-- ===== src/Execution/Store/Saves.antt =====
-- app/execution/service.py: what a save that returns has found and has stored.
use sentry.Prelude.{◌≡◌, none, some, arith}
use sentry.Prelude.Dict.{lookup, lookup-insert_self}
use sentry.Domain.Order.{OrderIntent, BrokerCommandIntent, BrokerOrder}
use sentry.Execution.Error.{ok}
use sentry.Execution.Store.{Store, save_order_intent, save_command_intent, save_order}

-- An intent is saved only if its identifier, its fingerprint and its key are new.
pub save_order_intent-new :
    (i : OrderIntent) (s : Store)
    → (save_order_intent i s).0 ≡ ok tt
    → (lookup i.intent_id s.order_intents ≡ none)
      × (lookup i.order_fingerprint s.fingerprints ≡ none)
      × (lookup i.idempotency_key s.idempotency_keys ≡ none)
unfolding save_order_intent
save_order_intent-new i s e = ground arith

pub save_order_intent-stored :
    (i : OrderIntent) (s : Store)
    → (save_order_intent i s).0 ≡ ok tt
    → lookup i.intent_id (save_order_intent i s).1.order_intents ≡ some i
unfolding save_order_intent
save_order_intent-stored i s e = ground (arith, lookup-insert_self i.intent_id i s.order_intents)

pub save_command_intent-stored :
    (c : BrokerCommandIntent) (s : Store)
    → (save_command_intent c s).0 ≡ ok tt
    → lookup c.command_intent_id (save_command_intent c s).1.command_intents ≡ some c
unfolding save_command_intent
save_command_intent-stored c s e =
    ground (arith, lookup-insert_self c.command_intent_id c s.command_intents)

pub save_order-stored :
    (o : BrokerOrder) (s : Store)
    → (save_order o s).0 ≡ ok tt
    → lookup o.intent_id (save_order o s).1.orders ≡ some o
unfolding save_order
save_order-stored o s e = ground (arith, lookup-insert_self o.intent_id o s.orders)

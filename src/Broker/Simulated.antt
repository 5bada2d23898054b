-- ===== src/Broker/Simulated.antt =====
-- app/broker/simulated.py: `SimulatedBroker`, with `IntentRecordingBroker` of app/broker/base.py that
-- it extends. Its lock makes every method one step.
pub mod Persisted
pub mod Books
mod Tests
use sentry.Prelude.{
  ℕ, ⊤, Bool, true, false, not, ◌&&◌, Option, none, some, List, [], ◌∷◌, ◌==◌, if◌then◌else◌,
}
use sentry.Prelude.Int.{ℤ}
use sentry.Prelude.Dict.{Dict, insert, lookup}
use sentry.Domain.Enums.{AccountKind}
use sentry.Domain.Market.{Uuid, Label, Money, Day, OptionContract, OptionQuote}
use sentry.Domain.Trade.{TradeProposal}
use sentry.Domain.Order.{BrokerCommandIntent, BrokerOrder, Arguments, Fill}
use sentry.Broker.Ledger.State as Ledger
use sentry.Broker.Ledger.State.{ShadowLedger, Context}
use sentry.Broker.Ledger.Orders.{deposit, review, submit}
use sentry.Broker.Ledger.Quotes.{observe_quote}
use sentry.Broker.Ledger.Cancel.{Target, cancel}
use sentry.Broker.Ledger.Expiry.{ExpirationPolicy, ExpirationResult, expire}
use sentry.Broker.Ledger.Audit.{reconciles}
use sentry.Broker.Capabilities.{
  CapabilityDescriptor, BrokerCapabilities, OrderArguments, command_fits,
}

-- What a method raises: its own checks, what the recorders raise, and what the ledger raises.
pub data Error : Type 0 where
  unfit_command unpersisted_mutation intent_reused key_reused missing_command : Error
  recorder_failed : ℕ → Error
  ledger_error : Ledger.Error → Error

pub data Result (A : Type 0) : Type 0 where
  ok : A → Result A
  err : Error → Result A

-- What a call takes from outside: the ledger's context, the schema validation and the reading of the
-- arguments of an injected builder, what the two recorders raise, and the broker's capabilities.
pub record Surroundings : Type 0 where
  pub context : Context
  pub validate : CapabilityDescriptor → Arguments → Bool
  pub read : ℕ → OrderArguments
  pub capabilities : BrokerCapabilities
  pub command_fault : Option ℕ
  pub state_fault : Option ℕ

-- The broker's fields that its methods change, and whether it has a state recorder.
pub record SimulatedBroker : Type 0 where
  pub ledger : ShadowLedger
  pub recorded_commands : Dict BrokerCommandIntent
  pub command_idempotency : Dict Uuid
  pub has_state_recorder : Bool
  pub state_dirty : Bool

-- `__init__` without an initial state; the fill model enters with each call.
unfoldable pub new : Money → ℕ → Label → Bool → SimulatedBroker
new initial_cash max_quote_age namespace has_state_recorder = record {
  ledger = Ledger.new initial_cash AccountKind.simulated max_quote_age namespace;
  recorded_commands = [];
  command_idempotency = [];
  has_state_recorder = has_state_recorder;
  state_dirty = false;
}

abbrev pub Method : Type 0 → Type 0
Method A = SimulatedBroker → Result A × SimulatedBroker

abbrev pub persisted : Option ℕ → Method ⊤
persisted (some e) b = (err (Error.recorder_failed e), record b { state_dirty = true })
persisted none b = (ok tt, record b { state_dirty = false })

-- `_persist_state`
unfoldable pub persist_state : Surroundings → Method ⊤
persist_state x b = if b.has_state_recorder then persisted x.state_fault b else (ok tt, b)

abbrev pub save_command : Option ℕ → BrokerCommandIntent → Method ⊤
save_command (some e) command b = (err (Error.recorder_failed e), b)
save_command none command b = (
  ok tt,
  record b {
    recorded_commands = insert command.command_intent_id command b.recorded_commands;
    command_idempotency =
        insert command.idempotency_key command.command_intent_id b.command_idempotency;
  },
)

-- `command_hash` of two commands is the same
abbrev pub same_hash : Surroundings → BrokerCommandIntent → BrokerCommandIntent → Bool
same_hash x c d = x.context.command_hash c == x.context.command_hash d

abbrev pub record_known_key :
    Surroundings → BrokerCommandIntent → Option BrokerCommandIntent → Method ⊤
record_known_key x command none b = (err Error.missing_command, b)
record_known_key x command (some other) b =
    if same_hash x other command then (ok tt, b) else (err Error.key_reused, b)

abbrev pub record_new : Surroundings → BrokerCommandIntent → Option Uuid → Method ⊤
record_new x command (some id) b = record_known_key x command (lookup id b.recorded_commands) b
record_new x command none b = save_command x.command_fault command b

abbrev pub record_known : Surroundings → BrokerCommandIntent → Option BrokerCommandIntent → Method ⊤
record_known x command (some existing) b =
    if same_hash x existing command then (ok tt, b) else (err Error.intent_reused, b)
record_known x command none b =
    record_new x command (lookup command.idempotency_key b.command_idempotency) b

-- `record_broker_command_intent`
unfoldable pub record_broker_command_intent : Surroundings → BrokerCommandIntent → Method ⊤
record_broker_command_intent x command b =
    record_known x command (lookup command.command_intent_id b.recorded_commands) b

abbrev pub with_value : {A : Type 0} → A → Result ⊤ × SimulatedBroker → Result A × SimulatedBroker
with_value a (ok u, b) = (ok a, b)
with_value a (err e, b) = (err e, b)

abbrev pub after_ledger :
    {A : Type 0} → Surroundings → Ledger.Result A → SimulatedBroker → Result A × SimulatedBroker
after_ledger x (Ledger.Result.ok a) b = with_value a (persist_state x b)
after_ledger x (Ledger.Result.err e) b = (err (Error.ledger_error e), b)

-- A method of the ledger, and then `_persist_state` unless it raised.
unfoldable pub on_ledger : {A : Type 0} → Surroundings → Ledger.Action A → Method A
unfolding persist_state
on_ledger x method b = let (r, l) = method b.ledger in after_ledger x r (record b { ledger = l })

-- `_ensure_clean`, and then the rest of the method
abbrev pub ensure_clean : {A : Type 0} → Method A → Method A
ensure_clean rest b = if b.state_dirty then (err Error.unpersisted_mutation, b) else rest b

abbrev pub after_record :
    {A : Type 0} → Method A → Result ⊤ × SimulatedBroker → Result A × SimulatedBroker
after_record rest (ok u, b) = rest b
after_record rest (err e, b) = (err e, b)

-- A command that fits is recorded before the ledger carries it out.
abbrev pub carry_out :
    Surroundings → BrokerCommandIntent → Ledger.Action BrokerOrder → Method BrokerOrder
carry_out x command method b =
    if command_fits x.validate x.read command x.capabilities
    then ensure_clean
        (λ b'. after_record (on_ledger x method) (record_broker_command_intent x command b')) b
    else (err Error.unfit_command, b)

unfoldable pub place_option_order :
    Surroundings → BrokerCommandIntent → OptionContract → Method BrokerOrder
unfolding on_ledger record_broker_command_intent
place_option_order x command contract = carry_out x command (submit x.context command contract)

unfoldable pub cancel_option_order :
    Surroundings → BrokerCommandIntent → Target → Method BrokerOrder
unfolding on_ledger record_broker_command_intent
cancel_option_order x command target = carry_out x command (cancel x.context command target)

unfoldable pub review_option_order : Surroundings → TradeProposal → Method (List Ledger.Warning)
unfolding on_ledger
review_option_order x p = ensure_clean (on_ledger x (review x.context p))

unfoldable pub consume_quote : Surroundings → OptionQuote → Method (List Fill)
unfolding on_ledger
consume_quote x q = ensure_clean (on_ledger x (observe_quote x.context q))

unfoldable pub make_deposit : Surroundings → ℤ → Label → Method Ledger.DepositRecord
unfolding on_ledger
make_deposit x amount reference = ensure_clean (on_ledger x (deposit x.context amount reference))

unfoldable pub process_expirations :
    Surroundings → Option Day → ExpirationPolicy → Dict ℤ → Method ExpirationResult
unfolding on_ledger
process_expirations x on_date policy settlements =
    ensure_clean (on_ledger x (expire x.context on_date policy settlements))

-- `reconcile`: whether the report is successful
unfoldable pub reconciled : SimulatedBroker → Bool
reconciled b = reconciles b.ledger && not b.state_dirty

-- The calls of a broker, each with its surroundings.
pub data Call : Type 0 where
  place_call : Surroundings → BrokerCommandIntent → OptionContract → Call
  cancel_call : Surroundings → BrokerCommandIntent → Target → Call
  review_call : Surroundings → TradeProposal → Call
  quote_call : Surroundings → OptionQuote → Call
  deposit_call : Surroundings → ℤ → Label → Call
  expire_call : Surroundings → Option Day → ExpirationPolicy → Dict ℤ → Call
  flush_call : Surroundings → Call

-- The broker after the call, whether it returns or raises.
unfoldable pub step : Call → SimulatedBroker → SimulatedBroker
unfolding place_option_order cancel_option_order review_option_order consume_quote make_deposit
    process_expirations persist_state
step (Call.place_call x command contract) b = (place_option_order x command contract b).1
step (Call.cancel_call x command target) b = (cancel_option_order x command target b).1
step (Call.review_call x p) b = (review_option_order x p b).1
step (Call.quote_call x q) b = (consume_quote x q b).1
step (Call.deposit_call x amount reference) b = (make_deposit x amount reference b).1
step (Call.expire_call x on_date policy settlements) b =
    (process_expirations x on_date policy settlements b).1
step (Call.flush_call x) b = (persist_state x b).1

unfoldable pub run : List Call → SimulatedBroker → SimulatedBroker
unfolding step
run [] b = b
run (c ∷ calls) b = run calls (step c b)

-- ===== src/Broker/Simulated/Tests.antt =====
-- app/broker/simulated.py: a broker whose state recorder refuses a snapshot.
use sentry.Prelude.{ℕ, ◌≡◌, refl, true, none, some, List, [], ◌∷◌, arith, All}
use sentry.Prelude.Int.{pos}
use sentry.Domain.Enums.{BrokerAction}
use sentry.Broker.Ledger.Orders.{deposit}
use sentry.Broker.Ledger.Expiry.{ExpirationPolicy}
use sentry.Broker.Ledger.Tests.{at_time, contract, purchase, quote_at, expiry}
use sentry.Broker.Capabilities.{BrokerCapabilities, action_value, command_fits}
use sentry.Broker.Simulated.{
  Error, err, Surroundings, SimulatedBroker, Call, new, on_ledger, persist_state,
}
use sentry.Broker.Simulated.Books.{IsFormed}

abbrev capabilities : BrokerCapabilities
capabilities = record {
  descriptors =
      record {
        capability = action_value BrokerAction.place_option_order;
        tool_name = 1;
        schema_version = 1;
        schema_hash = 1;
        available = true;
      }
      ∷ [];
  cancel_option_orders = true;
  external_writes_enabled = true;
  execution_ready = true;
}

abbrev around : ℕ → Surroundings
around now = record {
  context = at_time now;
  validate = λ d a. true;
  read = λ n. record { instrument_id = none; quantity = none; limit_price = none; side = none };
  capabilities = capabilities;
  command_fault = none;
  state_fault = none;
}

abbrev refusing : ℕ → Surroundings
refusing now = record (around now) { state_fault = some 5 }

purchase-fits : command_fits (λ d a. true) (around 100).read purchase capabilities ≡ true
unfolding command_fits sentry.Broker.Capabilities.arguments_match
    sentry.Broker.Capabilities.descriptor_for_action
purchase-fits = refl

abbrev calls : List Call
calls =
    Call.place_call (around 100) purchase contract
    ∷ Call.quote_call (refusing 120) (quote_at 21 110)
    ∷ Call.expire_call (around 130) none ExpirationPolicy.do_not_exercise []
    ∷ []

abbrev formed : All (IsFormed expiry) calls
formed = ((omega arith, omega arith, refl), (tt, (tt, tt)))

abbrev refused : SimulatedBroker
refused = (on_ledger (refusing 50) (deposit (at_time 50) (pos 7) 4) (new 1000 30 1 true)).1

abbrev deposit_refused :
    (on_ledger (refusing 50) (deposit (at_time 50) (pos 7) 4) (new 1000 30 1 true)).0
    ≡ err (Error.recorder_failed 5)
unfolding on_ledger deposit new persist_state sentry.Broker.Ledger.State.new
deposit_refused = refl

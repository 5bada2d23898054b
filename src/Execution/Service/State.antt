-- ===== src/Execution/Service/State.antt =====
-- app/execution/service.py: the fields of `ExecutionService`, what it calls, and the monad of its
-- methods. What a method meets outside itself is a `World` that answers by turns: a turn ends at each
-- `await` that leaves the service, where other tasks may call the safety controller. What is read
-- within one turn, the clock included, is read at one moment.
use sentry.Prelude.{ℕ, suc, ⊤, Bool, Option, none, some, List, [], ◌∷◌, if◌then◌else◌}
use sentry.Domain.Enums.{ExecutionEnvironment, TradingMode, BrokerAction}
use sentry.Domain.Market.{Uuid, Label, Time, OptionContract, OptionQuote, AccountSnapshot}
use sentry.Domain.Trade.{TradeProposal, FingerprintFields, BrokerReview}
use sentry.Domain.Order.{BrokerCommandIntent, BrokerOrder, Arguments, Position}
use sentry.Safety.RuntimeState
use sentry.Safety.RuntimeState.{SafetyController, Reason}
use sentry.Risk.Engine.{RiskEngine}
use sentry.Broker.Capabilities.{CapabilityDescriptor, BrokerCapabilities}
use sentry.Execution.Error.{Denial, Error, Result, ok, err}
use sentry.Execution.Store
use sentry.Execution.Store.{Store, Method, ReconciliationReport}

-- What `__init__` is given, the answers of the injected parts at each turn, and the hashes and
-- identifiers that the standard library makes. `meanwhile` lists the calls of other tasks that reach
-- the safety controller during a turn; `store_fault` is what interrupts the turn of a store access.
pub record World : Type 0 where
  pub environment : ExecutionEnvironment
  pub namespace : Label
  pub risk_engine : RiskEngine
  pub now : ℕ → Time
  pub trading_mode : ℕ → TradingMode
  pub kill_switch_active : ℕ → Bool
  pub healthcheck : ℕ → Bool
  pub meanwhile : ℕ → List RuntimeState.Call
  pub store_fault : ℕ → Option Error
  pub effective_account : ℕ → Result AccountSnapshot
  pub observed_account : ℕ → Result AccountSnapshot
  pub reconcile : ℕ → Result ReconciliationReport
  pub orders : ℕ → Result (List BrokerOrder)
  pub option_quote : ℕ → Label → Result OptionQuote
  pub review_option_order : ℕ → TradeProposal → Result BrokerReview
  pub capabilities : ℕ → Result BrokerCapabilities
  pub place_option_order : ℕ → BrokerCommandIntent → OptionContract → Result BrokerOrder
  pub cancel_option_order : ℕ → BrokerCommandIntent → Label → Result BrokerOrder
  pub argument_builder : TradeProposal → Label → Arguments
  pub validate : CapabilityDescriptor → Arguments → Bool
  pub sha256_json : FingerprintFields → Label
  pub cancel_fingerprint : Label → Label → Uuid → Label
  pub idempotency_key : Label → Label → BrokerAction → Label
  pub intent_id : BrokerAction → ExecutionEnvironment → Label → Label → Uuid
  pub command_id : Uuid → Label → Uuid
  pub pending_id : Uuid → Uuid
  pub decision_id : ℕ → Uuid
  pub text_of : Uuid → Label
  pub report_marker : ReconciliationReport → Uuid
  pub positions_marker : List Position → Uuid

-- A command that was handed to the broker, with the turn in which it was, and the controller then.
pub record Transmission : Type 0 where
  pub command : BrokerCommandIntent
  pub turn : ℕ
  pub controller : SafetyController

-- The state that the service works on. Of the set `interrupted_write_intents` the service reads only
-- whether it is empty; here it is a list. `sent` is not a field of the source: it records the calls of
-- `place_option_order` and `cancel_option_order` of the broker, the last one first.
pub record ServiceState : Type 0 where
  pub store : Store
  pub safety : SafetyController
  pub interrupted_write_intents : List Uuid
  pub turn : ℕ
  pub sent : List Transmission

-- `__init__`
unfoldable pub new : SafetyController → ServiceState
unfolding Store.new
new safety = record {
  store = Store.new;
  safety = safety;
  interrupted_write_intents = [];
  turn = 0;
  sent = [];
}

abbrev pub Action : Type 0 → Type 0
Action A = ServiceState → Result A × ServiceState

module _ {A : Type 0} where
  unfoldable pub pure : A → Action A
  pure a s = (ok a, s)

  unfoldable pub raise : Error → Action A
  raise e s = (err e, s)

  -- What the service reads within a turn.
  unfoldable pub gets : (ServiceState → A) → Action A
  gets f s = (ok (f s), s)

  -- `try: m`, with the exception as a value.
  unfoldable pub attempt : Action A → Action (Result A)
  attempt m s = let (r, s') = m s in (ok r, s')

module _ {A B : Type 0} where
  abbrev pub continue : Result A → (A → Action B) → Action B
  continue (ok a) f s = f a s
  continue (err e) f s = (err e, s)

  infixl 5 ◌>>=◌ ◌>>◌
  unfoldable pub ◌>>=◌ : Action A → (A → Action B) → Action B
  ◌>>=◌ m f s = let (r, s') = m s in continue r f s'

  abbrev pub ◌>>◌ : Action A → Action B → Action B
  m >> k = m >>= λ _. k

unfoldable pub raise_if : Bool → Error → Action ⊤
raise_if test e s = if test then (err e, s) else (ok tt, s)

-- `if test: raise ExecutionDenied(why)`
abbrev pub deny_if : Bool → Denial → Action ⊤
deny_if test why = raise_if test (Error.denied why)

abbrev pub deny_found : Option Denial → Action ⊤
deny_found none = pure tt
deny_found (some why) = raise (Error.denied why)

-- `if test: raise ExecutionDenied(why)` in a row, where `find` says which one raises.
unfoldable pub check : (ServiceState → Option Denial) → Action ⊤
check find s = deny_found (find s) s

unfoldable pub emergency_stop : Reason → Action ⊤
unfolding RuntimeState.emergency_stop
emergency_stop why s = (ok tt, record s { safety = RuntimeState.emergency_stop why s.safety })

-- `self._interrupted_write_intents.add(intent_id)`
unfoldable pub latch : Uuid → Action ⊤
latch intent_id s =
    (ok tt, record s { interrupted_write_intents = intent_id ∷ s.interrupted_write_intents })

module _ (w : World) where
  -- The end of a turn, on a state that the turn has left.
  unfoldable pub next_turn : ServiceState → ServiceState
  unfolding RuntimeState.run
  next_turn s = record s {
    safety = RuntimeState.run (w.meanwhile s.turn) s.safety;
    turn = suc s.turn;
  }

  -- `await` of a part that answers for the turn.
  unfoldable pub await : {A : Type 0} → (ℕ → Result A) → Action A
  unfolding next_turn
  await answer s = (answer s.turn, next_turn s)

  abbrev pub store_access : {A : Type 0} → Option Error → Method A → Action A
  store_access (some e) method s = (err e, next_turn s)
  store_access none method s =
      let (r, store) = method s.store in (r, next_turn (record s { store = store }))

  -- `await self._store.method(...)`
  unfoldable pub stored : {A : Type 0} → Method A → Action A
  unfolding next_turn
  stored method s = store_access (w.store_fault s.turn) method s

  -- A command is handed to the broker, whatever comes of it.
  unfoldable pub transmit : BrokerCommandIntent → (ℕ → Result BrokerOrder) → Action BrokerOrder
  unfolding next_turn
  transmit command answer s = (
    answer s.turn,
    next_turn (record s {
      sent = record { command = command; turn = s.turn; controller = s.safety } ∷ s.sent;
    }),
  )

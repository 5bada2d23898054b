-- ===== src/Lib.antt =====
-- Sentry, an options-trading sentinel: a formal model of the parts that decide about money and safety.
--
-- The program watches markets, proposes single long-option orders, and lets an order reach a broker
-- only through deterministic checks. A proposal is evaluated by the risk engine; the safety
-- controller says whether entries are permitted at all; an order then lives under the order state
-- machine; the Demo brokers keep their books in a ledger that fills open orders by a fill model when
-- quotes arrive; the position manager decides about exits.
--
-- Files and what they model:
--   Prelude       helpers: Boolean tests, lists, signed amounts, dictionaries in insertion order
--   Domain        app/domain/enums.py and app/domain/models.py: enumerations, records and
--                 their validators (Approval proves about exact approvals)
--   Safety        app/safety/runtime_state.py (RuntimeState; Halting and Window prove about it) and
--                 app/safety/write_firewall.py
--   Execution     app/execution/state_machine.py (StateMachine; Lifecycle proves about it) and
--                 app/execution/service.py (Error, Store and Service)
--   Risk          app/risk/engine.py (Engine; Admission and Report prove about it)
--   Positions     app/positions/manager.py (Manager; Triggers, Exits and Marks prove about it)
--   Strategy      app/strategy/attention.py
--   Options       app/options/calculations.py
--   Clock         app/clock/market_calendar.py (MarketCalendar; Sessions proves about it)
--   Replay        app/replay/engine.py (Engine; Engine/Order, Engine/Causal and Engine/Returns prove
--                 about it)
--   Broker        app/broker/fill_models.py (FillModel), app/broker/shadow_ledger.py (Ledger),
--                 app/broker/base.py (Capabilities, and the recording of commands in Simulated) and
--                 app/broker/simulated.py (Simulated; Books and Persisted prove about it)
-- Within Broker/Ledger: State has the fields of ShadowLedger and the monad of its methods,
-- Holdings the reserves and positions, Fills `_apply_fill`, Quotes `observe_quote`, Orders
-- `deposit`, `review` and `submit`, Cancel `cancel`, Expiry `expire`, Audit the account snapshot
-- and the report, Snapshot the export and the restoring. Invariant, History, NoFault, Evolution,
-- Retry, Replay, Admitted and Snapshot/Restoring hold the proofs. Each definition keeps the name
-- that the source gives it, and takes the state first or last as a value.
-- Within Execution: Store is `InMemoryExecutionStore` (Store/Grows, Store/Methods and Store/Saves prove
-- about its methods). In Service, State has the state, the monad and the `World`; Gates has the checks,
-- `_transition` and `_record_interrupted_write`; Placement has `execute`, Cancellation `cancel_order`,
-- Reconciliation `reconcile_submission` and `record_broker_update`, History the histories of calls. The
-- proofs are in Rules (Hoare rules), Quiet, Parts, Steps and Others (what hands over no command), Sent,
-- Persisting, Checks, Cleared, Placing and Cancelling (the way of a command to the broker), Matching
-- (the tests of a report), and in Writes, Latched, Updated, Reconciled and Failing, which state the
-- results. The service calls the
-- safety controller of Safety, the risk engine of Risk and the state machine of Execution.
--
-- How the code is read:
--   * A method is a function from the state to a result and the state after it. A raise is a value;
--     what was written before it stays written.
--   * An amount of money is a count of 10^-8. Sums and products of amounts are exact; a quotient is
--     rounded half to even to that grid, where the source rounds to 28 digits. Only average prices,
--     and what is derived from them, are quotients. A ratio that is compared with a limit is
--     multiplied out instead. Signed amounts are the integers of Prelude/Int.
--   * A time is microseconds since the epoch, in UTC; a date is the number of its day. Clock readings,
--     the date and time in a time zone, the regular close of a session, identifiers (uuid4, uuid5) and hashes
--     are arguments, so that a theorem holds for every reading.
--   * A dictionary is a list of pairs in insertion order. A set of order identifiers is a list
--     without repetition.
--     The text of a limit, which a fingerprint contains, is its amount and the number of decimal places
--     that it is written with. The two `except` clauses of `_execute` and `_cancel_order` are
--     the same up to the reason that they record: `failed_placement` and `failed_cancellation` share
--     `failed_write`.
--   * Texts that the program only compares are numbers; texts that explain a decision are the
--     constructors of a type, or left out.
--   * What the execution service meets outside itself is a record of answers by turns: the broker, the
--     quotes, the clock, the mode, the kill switch, the health check, the faults of the store and the
--     calls of other tasks on the safety controller. A turn ends at each `await`; the reads between two
--     awaits are of one moment. Theorems hold for every such record, so for every interleaving of other
--     tasks with the safety controller.
-- Every loop runs over a list that exists when it starts, so all definitions are structural and no
-- fuel is used. A history is a list of calls of any length.
--
-- Not modelled: updates of the execution store by another task in the middle of a method of the
-- service, the PostgreSQL store, the validation of command arguments by a schema, the shadow
-- broker, the restoring of a simulated broker, the real clock, the selection of contracts, the scoring
-- of candidates and the functions of app/options/calculations.py that divide, since they are
-- outside these parts; and the network sessions with brokers, providers and language models, the
-- collection of documents, the dashboards, the reports and the reading of configuration files,
-- which are input and output.
pub mod Prelude
pub mod Domain
pub mod Safety
pub mod Broker
pub mod Execution
pub mod Risk
pub mod Positions
pub mod Strategy
pub mod Options
pub mod Clock
pub mod Replay

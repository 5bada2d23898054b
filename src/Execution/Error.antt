-- ===== src/Execution/Error.antt =====
-- app/exceptions.py and the classes of app/execution/service.py: what the execution service raises,
-- and the results of its calls.
use sentry.Prelude.{ℕ, Bool, true, false}

-- The texts of `ExecutionDenied`.
pub data Denial : Type 0 where
  binding live_shadow research_mode kill_switch health entries_blocked exits_blocked : Denial
  approval_missing reconciliation_incomplete risk_denied review_side_effect review_rejected : Denial
  risk_denied_after_review mode_changed no_capability external_demo risk_expired : Denial
  interrupted_latch buy_only target_environment target_not_open cancel_preflight : Denial
  no_intent_evidence cancel_safety_changed not_unknown no_local_order update_environment : Denial
  update_not_exact fills_decrease foreign_fill position_environment : Denial

-- `timed_out`, `disconnected` and `canceled` are TimeoutError, ConnectionError and
-- asyncio.CancelledError; `other` is any exception of the injected parts that the service does not
-- name.
pub data Error : Type 0 where
  denied : Denial → Error
  duplicate_order submission_unknown safety_critical : Error
  invalid_transition invalid_arguments : Error
  timed_out disconnected canceled : Error
  other : ℕ → Error

pub data Result (A : Type 0) : Type 0 where
  ok : A → Result A
  err : Error → Result A

-- What `except (TimeoutError, ConnectionError, SubmissionUnknownError)` catches.
abbrev pub is_unresolved : Error → Bool
is_unresolved Error.timed_out = true
is_unresolved Error.disconnected = true
is_unresolved Error.submission_unknown = true
is_unresolved _ = false

-- What `except ExecutionDenied` catches; `DuplicateOrderError` is a subclass.
abbrev pub is_denial : Error → Bool
is_denial (Error.denied why) = true
is_denial Error.duplicate_order = true
is_denial _ = false

-- ===== src/Safety/RuntimeState.antt =====
-- app/safety/runtime_state.py: `SafetyEvidence` and `SafetyController`. The injected clock enters as
-- the elapsed time that each call reads; texts given as reasons are the constructors of `Reason`.
use sentry.Prelude.{
  ℕ, ◌-◌, Bool, true, false, not, ◌&&◌, ◌||◌, Option, none, some, List, [], ◌∷◌, leb, ltb,
  if◌then◌else◌,
}
use sentry.Domain.Enums.{RuntimeSafetyState}
use sentry.Domain.Enums.RuntimeSafetyState.{normal, entry_disabled, exit_only, halted}

pub record SafetyEvidence : Type 0 where
  pub database_writable : Bool
  pub broker_state_known : Bool
  pub reconciled : Bool
  pub market_data_fresh : Bool
  pub account_data_fresh : Bool
  pub execution_service_healthy : Bool
  pub kill_switch_clear : Bool
  pub environment_matches : Bool
  pub unresolved_submission : Bool

-- The property `SafetyEvidence.permits_normal`.
abbrev pub permits_normal : SafetyEvidence → Bool
permits_normal e =
    e.database_writable
    && e.broker_state_known
    && e.reconciled
    && e.market_data_fresh
    && e.account_data_fresh
    && e.execution_service_healthy
    && e.kill_switch_clear
    && e.environment_matches
    && not e.unresolved_submission

pub data Reason : Type 0 where
  startup kill_switch_active submission_or_database broker_unknown paused_by_operator : Reason
  evidence_incomplete accumulating moved_backward all_passed : Reason
  given : ℕ → Reason

abbrev pub rank : RuntimeSafetyState → ℕ
rank normal = 0
rank entry_disabled = 1
rank exit_only = 2
rank halted = 3

pub record SafetyController : Type 0 where
  pub state : RuntimeSafetyState
  pub reason : Reason
  pub healthy_since : Option ℕ
  pub window : ℕ
  pub entries_paused : Bool

-- `__init__`
unfoldable pub new : ℕ → SafetyController
new window = record {
  state = entry_disabled;
  reason = Reason.startup;
  healthy_since = none;
  window = window;
  entries_paused = false;
}

abbrev pub is_normal : RuntimeSafetyState → Bool
is_normal normal = true
is_normal _ = false

abbrev pub is_halted : RuntimeSafetyState → Bool
is_halted halted = true
is_halted _ = false

-- The body of `degrade` below its check of the target.
abbrev pub degrade_to : RuntimeSafetyState → Reason → SafetyController → SafetyController
degrade_to target why c =
    if leb (rank c.state) (rank target)
    then record c { state = target; reason = why; healthy_since = none }
    else c

-- `degrade`; `none` stands for its `ValueError`, which leaves the controller as it was.
unfoldable pub degrade : RuntimeSafetyState → Reason → SafetyController → Option SafetyController
degrade target why c = if is_normal target then none else some (degrade_to target why c)

unfoldable pub emergency_stop : Reason → SafetyController → SafetyController
emergency_stop why c = record c { state = halted; reason = why; healthy_since = none }

unfoldable pub pause_entries : Reason → SafetyController → SafetyController
pause_entries why c = degrade_to entry_disabled why (record c { entries_paused = true })

-- The last part of `observe`: the health window, at the elapsed time `now`.
abbrev pub accumulate : ℕ → Option ℕ → SafetyController → SafetyController
accumulate now none c = record c {
  healthy_since = some now;
  state = entry_disabled;
  reason = Reason.accumulating;
}
accumulate now (some since) c =
    if ltb now since
    then degrade_to entry_disabled Reason.moved_backward c
    else if leb c.window (now - since)
    then record c { state = normal; reason = Reason.all_passed }
    else c

-- `observe`; `cleared` is `manual_halt_cleared`.
unfoldable pub observe : ℕ → SafetyEvidence → Bool → SafetyController → SafetyController
unfolding emergency_stop
observe now e cleared c =
    if not e.kill_switch_clear
    then emergency_stop Reason.kill_switch_active c
    else if e.unresolved_submission || not e.database_writable
    then emergency_stop Reason.submission_or_database c
    else if not e.broker_state_known || not e.environment_matches
    then degrade_to entry_disabled Reason.broker_unknown c
    else if c.entries_paused
    then degrade_to entry_disabled Reason.paused_by_operator c
    else if not (permits_normal e)
    then degrade_to entry_disabled Reason.evidence_incomplete c
    else if is_halted c.state && not cleared
    then c
    else accumulate now c.healthy_since c

unfoldable pub resume_entries : ℕ → SafetyEvidence → Bool → SafetyController → SafetyController
unfolding observe
resume_entries now e cleared c = observe now e cleared (record c { entries_paused = false })

unfoldable pub permits_new_entry : SafetyController → Bool
permits_new_entry c = is_normal c.state

unfoldable pub permits_risk_reducing_exit : SafetyController → Bool
permits_risk_reducing_exit c = not (is_halted c.state)

-- The calls that reach a controller, each with what it is given.
pub data Call : Type 0 where
  degrade_call : RuntimeSafetyState → Reason → Call
  stop_call pause_call : Reason → Call
  observe_call resume_call : (now : ℕ) → SafetyEvidence → (cleared : Bool) → Call

unfoldable pub apply : Call → SafetyController → SafetyController
unfolding degrade emergency_stop pause_entries observe resume_entries
apply (Call.degrade_call target why) c = elim (degrade target why c) [ none ↦ c | some c' ↦ c' ]
apply (Call.stop_call why) c = emergency_stop why c
apply (Call.pause_call why) c = pause_entries why c
apply (Call.observe_call now e cleared) c = observe now e cleared c
apply (Call.resume_call now e cleared) c = resume_entries now e cleared c

-- A history of calls, the first one first.
unfoldable pub run : List Call → SafetyController → SafetyController
run [] c = c
run (x ∷ xs) c = run xs (apply x c)

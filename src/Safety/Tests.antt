-- ===== src/Safety/Tests.antt =====
-- app/safety/runtime_state.py on concrete calls.
use sentry.Prelude.{ℕ, ◌≤◌, ◌≡◌, refl, true, false, none, some, List, [], ◌∷◌, arith}
use sentry.Domain.Enums.RuntimeSafetyState.{halted}
use sentry.Safety.RuntimeState.{
  SafetyEvidence, SafetyController, Reason, Call, observe_call, new, observe, emergency_stop,
  pause_entries, run, permits_new_entry, permits_risk_reducing_exit,
}
use sentry.Safety.Halting.{run-halted, pause-blocks_entries}
use sentry.Safety.Window.{streak, run-permits_new_entry, observe-recovers}

abbrev complete : SafetyEvidence
complete = record {
  database_writable = true;
  broker_state_known = true;
  reconciled = true;
  market_data_fresh = true;
  account_data_fresh = true;
  execution_service_healthy = true;
  kill_switch_clear = true;
  environment_matches = true;
  unresolved_submission = false;
}

abbrev started : SafetyController
started = new 60

abbrev warmed_up : List Call
warmed_up =
    observe_call 10 complete false
    ∷ observe_call 40 complete false
    ∷ observe_call 75 complete false
    ∷ []

warmed_up_permits : permits_new_entry (run warmed_up started) ≡ true
unfolding permits_new_entry run new observe sentry.Safety.RuntimeState.apply
warmed_up_permits = refl

run-permits_new_entry_example :
    (since : ℕ) × (span : ℕ) × (streak warmed_up none ≡ some (since, span)) × (60 ≤ span)
run-permits_new_entry_example = run-permits_new_entry 60 warmed_up warmed_up_permits

abbrev stopped : SafetyController
stopped = emergency_stop (Reason.given 1) started

stopped_halted : stopped.state ≡ halted
unfolding emergency_stop
stopped_halted = refl

run-halted_example :
    ((run warmed_up stopped).state ≡ halted)
    × (permits_new_entry (run warmed_up stopped) ≡ false)
    × (permits_risk_reducing_exit (run warmed_up stopped) ≡ false)
run-halted_example = run-halted warmed_up stopped refl stopped_halted

pause-blocks_entries_example :
    permits_new_entry (run warmed_up (pause_entries (Reason.given 2) (run warmed_up started)))
    ≡ false
pause-blocks_entries_example =
    pause-blocks_entries (Reason.given 2) warmed_up (run warmed_up started) refl

observe-recovers_example :
    permits_new_entry (observe 70 complete false (observe 10 complete false started)) ≡ true
unfolding new
observe-recovers_example =
    observe-recovers complete 10 70 started refl refl (λ e. cc e) refl (omega arith)

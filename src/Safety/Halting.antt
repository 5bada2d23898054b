-- ===== src/Safety/Halting.antt =====
-- app/safety/runtime_state.py: the controller fails closed.
use sentry.Prelude.{◌≡◌, ◌≢◌, Bool, true, false, ◌&&◌, List, [], ◌∷◌, arith, any}
use sentry.Domain.Enums.RuntimeSafetyState.{normal, halted}
use sentry.Safety.RuntimeState.{
  SafetyController, Reason, Call, observe_call, resume_call, permits_normal, apply, run,
  permits_new_entry, permits_risk_reducing_exit, pause_entries,
}

-- The call observes complete evidence, and says that the operator has cleared the halt.
abbrev pub clears_halt : Call → Bool
clears_halt (observe_call now e cleared) = cleared && permits_normal e
clears_halt (resume_call now e cleared) = cleared && permits_normal e
clears_halt _ = false

abbrev pub is_resume : Call → Bool
is_resume (resume_call now e cleared) = true
is_resume _ = false

apply_halted :
    (x : Call) (c : SafetyController)
    → clears_halt x ≡ false
    → c.state ≡ halted
    → (apply x c).state ≡ halted
unfolding apply
apply_halted (observe_call now e cleared) c h s = ground arith
apply_halted _ c h s = ground arith

-- A halted controller stays halted, and so permits neither entries nor exits, through any calls
-- none of which both observes complete evidence and clears the halt by hand.
pub run-halted :
    (xs : List Call) (c : SafetyController)
    → any clears_halt xs ≡ false
    → c.state ≡ halted
    → ((run xs c).state ≡ halted)
      × (permits_new_entry (run xs c) ≡ false)
      × (permits_risk_reducing_exit (run xs c) ≡ false)
unfolding run permits_new_entry permits_risk_reducing_exit
run-halted [] c h s = ground arith
run-halted (x ∷ xs) c h s =
    let none_here : clears_halt x ≡ false = ground arith in
    run-halted xs (apply x c) (ground arith) (apply_halted x c none_here s)

abbrev IsPaused : SafetyController → Type 0
IsPaused c = (c.entries_paused ≡ true) × (c.state ≢ normal)

apply-IsPaused :
    (x : Call) (c : SafetyController) → is_resume x ≡ false → IsPaused c → IsPaused (apply x c)
unfolding apply
apply-IsPaused (observe_call now e cleared) c h s = ground arith
apply-IsPaused _ c h s = ground arith

run-IsPaused :
    (xs : List Call) (c : SafetyController)
    → any is_resume xs ≡ false
    → IsPaused c
    → IsPaused (run xs c)
unfolding run
run-IsPaused [] c h s = s
run-IsPaused (x ∷ xs) c h s =
    run-IsPaused xs (apply x c) (ground arith) (apply-IsPaused x c (ground arith) s)

-- Whatever state the controller was in, after the operator pauses entries no calls but a resumption
-- make it permit a new entry.
pub pause-blocks_entries :
    (why : Reason) (xs : List Call) (c : SafetyController)
    → any is_resume xs ≡ false
    → permits_new_entry (run xs (pause_entries why c)) ≡ false
unfolding permits_new_entry pause_entries
pause-blocks_entries why xs c h =
    let paused : IsPaused (pause_entries why c) = ground arith in
    ground (arith, run-IsPaused xs (pause_entries why c) h paused)

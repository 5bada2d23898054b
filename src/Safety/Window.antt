-- ===== src/Safety/Window.antt =====
-- app/safety/runtime_state.py: NORMAL is earned by an uninterrupted run of complete evidence.
use sentry.Prelude.{
  ℕ, ◌-◌, ◌+◌, ◌≤◌, max, ◌≡◌, refl, ◌∙◌, ◌≢◌, Bool, true, false, Option, none, some, List, [], ◌∷◌,
  arith, ltb, if◌then◌else◌,
}
use sentry.Domain.Enums.RuntimeSafetyState.{normal, entry_disabled, exit_only, halted}
use sentry.Safety.RuntimeState.{
  SafetyEvidence, SafetyController, Call, degrade_call, observe_call, resume_call, permits_normal,
  new, observe, apply, run, permits_new_entry, is_normal,
}

-- What a history of calls shows by itself: when the present run of complete evidence began, and the
-- longest time that its observations have spanned.
abbrev pub Streak : Type 0
Streak = Option (ℕ × ℕ)

-- One more observation of complete evidence. One that is earlier than the start begins a run anew.
abbrev pub extend : ℕ → Streak → Streak
extend now none = some (now, 0)
extend now (some (since, span)) =
    if ltb now since then some (now, 0) else some (since, max span (now - since))

abbrev pub log : Call → Streak → Streak
log (observe_call now e cleared) s = if permits_normal e then extend now s else none
log (resume_call now e cleared) s = if permits_normal e then extend now s else none
log (degrade_call target why) s = if is_normal target then s else none
log _ s = none

unfoldable pub streak : List Call → Streak → Streak
streak [] s = s
streak (x ∷ xs) s = streak xs (log x s)

abbrev Starts : Option ℕ → ℕ → Type 0
Starts none since = Unit
Starts (some t) since = since ≤ t

-- The controller counts from no earlier than the run began, and is normal only after the window.
abbrev Agrees : SafetyController → Streak → Type 0
Agrees c none = (c.healthy_since ≡ none) × (c.state ≢ normal)
Agrees c (some (since, span)) =
    Starts c.healthy_since since
    × (c.state ≡ normal → c.window ≤ span)
    × (c.state ≡ normal → c.healthy_since ≢ none)
    × (c.state ≡ exit_only → c.healthy_since ≡ none)
    × (c.state ≡ halted → c.healthy_since ≡ none)

observe-Agrees :
    (now : ℕ) (e : SafetyEvidence) (cleared : Bool) (c : SafetyController) (s : Streak)
    → Agrees c s
    → Agrees (observe now e cleared c) (if permits_normal e then extend now s else none)
unfolding observe
observe-Agrees now e cleared c none h = ground arith
observe-Agrees now e cleared c (some (since, span)) h = ground arith

apply-Agrees :
    (x : Call) (c : SafetyController) (s : Streak) → Agrees c s → Agrees (apply x c) (log x s)
unfolding apply
apply-Agrees (observe_call now e cleared) c s h = observe-Agrees now e cleared c s h
apply-Agrees (resume_call now e cleared) c none h =
    observe-Agrees now e cleared (record c { entries_paused = false }) none h
apply-Agrees (resume_call now e cleared) c (some s) h =
    observe-Agrees now e cleared (record c { entries_paused = false }) (some s) h
apply-Agrees (degrade_call normal why) c none h = h
apply-Agrees (degrade_call normal why) c (some s) h = h
apply-Agrees (degrade_call entry_disabled why) c none h = ground arith
apply-Agrees (degrade_call entry_disabled why) c (some (since, span)) h = ground arith
apply-Agrees _ c none h = ground arith
apply-Agrees _ c (some (since, span)) h = ground arith

apply-window : (x : Call) (c : SafetyController) → (apply x c).window ≡ c.window
unfolding apply
apply-window x c = ground arith

run-Agrees :
    (xs : List Call) (c : SafetyController) (s : Streak)
    → Agrees c s
    → Agrees (run xs c) (streak xs s) × ((run xs c).window ≡ c.window)
unfolding run streak
run-Agrees [] c s h = (h, refl)
run-Agrees (x ∷ xs) c s h =
    let (agrees, same) = run-Agrees xs (apply x c) (log x s) (apply-Agrees x c s h) in
    (agrees, same ∙ apply-window x c)

permitted_span :
    (c : SafetyController) (s : Streak)
    → Agrees c s
    → is_normal c.state ≡ true
    → (since : ℕ) × (span : ℕ) × (s ≡ some (since, span)) × (c.window ≤ span)
permitted_span c none h n = absurd (ground arith)
permitted_span c (some (since, span)) h n = (since, span, refl, ground arith)

-- Whatever calls a controller has received since it started, it permits a new entry only if its last
-- calls, apart from calls of `degrade` that are refused, are observations of complete evidence, in
-- one uninterrupted run whose times span at least the startup health window.
pub run-permits_new_entry :
    (window : ℕ) (xs : List Call)
    → permits_new_entry (run xs (new window)) ≡ true
    → (since : ℕ) × (span : ℕ) × (streak xs none ≡ some (since, span)) × (window ≤ span)
unfolding permits_new_entry new
run-permits_new_entry window xs h =
    let (agrees, same) = run-Agrees xs (new window) none (ground arith) in
    let (since, span, e, wide) = permitted_span (run xs (new window)) (streak xs none) agrees h in
    (since, span, e, omega arith)

-- The way back: a controller that is neither paused nor halted and is not counting reaches NORMAL by
-- two observations of complete evidence that are the window apart.
pub observe-recovers :
    (e : SafetyEvidence) (now later : ℕ) (c : SafetyController)
    → permits_normal e ≡ true
    → c.entries_paused ≡ false
    → c.state ≢ halted
    → c.healthy_since ≡ none
    → now + c.window ≤ later
    → permits_new_entry (observe later e false (observe now e false c)) ≡ true
unfolding observe permits_new_entry
observe-recovers e now later c h p s z l = ground arith

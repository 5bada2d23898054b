-- ===== src/Execution/Tests.antt =====
-- app/execution/state_machine.py on concrete orders.
use sentry.Prelude.{◌≡◌, refl, Bool, true, false, some, List, [], ◌∷◌}
use mathlib.Core.List.{Memᴰ}
use sentry.Domain.Enums.{OrderState}
use sentry.Domain.Enums.OrderState.{
  reviewed, proposed, approved, intent_persisted, submitting, submission_unknown, partial, filled,
}
use sentry.Execution.StateMachine.{can_transition}
use sentry.Execution.Lifecycle.{walk, visited, walk-never_returns, walk-passes_submitting}

abbrev life : List (OrderState × Bool)
life =
    (reviewed, false)
    ∷ (approved, false)
    ∷ (intent_persisted, false)
    ∷ (submitting, false)
    ∷ (submission_unknown, false)
    ∷ (filled, true)
    ∷ []

life_accepted : walk proposed life ≡ some filled
unfolding walk can_transition
life_accepted = refl

walk-passes_submitting_example : Memᴰ submitting (visited life)
walk-passes_submitting_example = walk-passes_submitting filled life life_accepted refl

partial_again : walk partial ((partial, false) ∷ (partial, false) ∷ []) ≡ some partial
unfolding walk can_transition
partial_again = refl

walk-never_returns_example : partial ≡ partial
walk-never_returns_example =
    walk-never_returns partial partial false ((partial, false) ∷ []) partial_again

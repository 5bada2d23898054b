-- ===== src/Execution/StateMachine.antt =====
-- app/execution/state_machine.py: the class `OrderStateMachine`.
use sentry.Prelude.{Bool, true, false, not, ◌&&◌, Option, none, some, if◌then◌else◌}
use sentry.Domain.Enums.{OrderState, is_unknown}
use sentry.Domain.Enums.OrderState.{
  proposed, reviewed, approved, intent_persisted, submitting, submission_unknown, opened, partial,
  filled, canceled, rejected, expired,
}

-- `target in cls._transitions[current]`
abbrev pub transitions : OrderState → OrderState → Bool
transitions proposed reviewed = true
transitions proposed rejected = true
transitions reviewed approved = true
transitions reviewed rejected = true
transitions approved intent_persisted = true
transitions approved rejected = true
transitions intent_persisted submitting = true
transitions intent_persisted rejected = true
transitions submitting submission_unknown = true
transitions submitting opened = true
transitions submitting partial = true
transitions submitting filled = true
transitions submitting canceled = true
transitions submitting rejected = true
transitions submission_unknown opened = true
transitions submission_unknown partial = true
transitions submission_unknown filled = true
transitions submission_unknown canceled = true
transitions submission_unknown rejected = true
transitions submission_unknown expired = true
transitions opened partial = true
transitions opened filled = true
transitions opened canceled = true
transitions opened expired = true
transitions partial partial = true
transitions partial filled = true
transitions partial canceled = true
transitions partial expired = true
transitions _ _ = false

unfoldable pub is_terminal : OrderState → Bool
is_terminal filled = true
is_terminal canceled = true
is_terminal rejected = true
is_terminal expired = true
is_terminal _ = false

-- The third argument is `reconciliation_evidence`.
unfoldable pub can_transition : OrderState → OrderState → Bool → Bool
can_transition current target evidence =
    if is_unknown current && not evidence then false else transitions current target

-- `none` stands for `InvalidOrderTransition`.
unfoldable pub transition : OrderState → OrderState → Bool → Option OrderState
unfolding can_transition
transition current target evidence =
    if not (can_transition current target evidence) then none else some target

-- ===== src/Execution/Lifecycle.antt =====
-- What every life of an order under app/execution/state_machine.py has in common.
use sentry.Prelude.{
  ℕ, ◌<◌, ◌≡◌, refl, sym, ◌↔◌, ◌⊎◌, inl, inr, Bool, true, false, Option, none, some, List, [], ◌∷◌,
  arith, Bool-cases, if◌then◌else◌,
}
use mathlib.Core.List.{Memᴰ}
use sentry.Domain.Enums.{OrderState}
use sentry.Domain.Enums.OrderState.{
  proposed, reviewed, approved, intent_persisted, submitting, submission_unknown, opened, partial,
  filled, canceled, rejected, expired,
}
use sentry.Execution.StateMachine.{can_transition, is_terminal}

-- The state after a list of requested targets, each with its evidence; `none` if one is refused.
unfoldable pub walk : OrderState → List (OrderState × Bool) → Option OrderState
walk s [] = some s
walk s ((t, e) ∷ rest) = if can_transition s t e then walk t rest else none

-- The targets of a list of requests.
abbrev pub visited : List (OrderState × Bool) → List OrderState
visited [] = []
visited ((t, _) ∷ rest) = t ∷ visited rest

-- How far an order has come.
abbrev pub rank : OrderState → ℕ
rank proposed = 0
rank reviewed = 1
rank approved = 2
rank intent_persisted = 3
rank submitting = 4
rank submission_unknown = 5
rank opened = 6
rank partial = 7
rank _ = 8

-- Past local control: the broker may hold the order, or has held it.
abbrev pub at_broker : OrderState → Bool
at_broker submission_unknown = true
at_broker opened = true
at_broker partial = true
at_broker filled = true
at_broker canceled = true
at_broker expired = true
at_broker _ = false

-- A state is listed as terminal exactly when the table allows no target from it, with any evidence.
pub is_terminal-iff-final :
    (s : OrderState)
    → (is_terminal s ≡ true) ↔ ((t : OrderState) (e : Bool) → can_transition s t e ≡ false)
unfolding is_terminal can_transition
is_terminal-iff-final s = (final s, stuck s)
  where
    final :
        (s : OrderState)
        → is_terminal s ≡ true
        → (t : OrderState) (e : Bool) → can_transition s t e ≡ false
    final filled h t e = ground arith
    final _ h t e = ground arith

    stuck :
        (s : OrderState)
        → ((t : OrderState) (e : Bool) → can_transition s t e ≡ false)
        → is_terminal s ≡ true
    stuck proposed h = cc (h rejected true)
    stuck reviewed h = cc (h rejected true)
    stuck approved h = cc (h rejected true)
    stuck intent_persisted h = cc (h rejected true)
    stuck submitting h = cc (h rejected true)
    stuck submission_unknown h = cc (h rejected true)
    stuck opened h = cc (h filled true)
    stuck partial h = cc (h filled true)
    stuck _ h = refl

step_rank :
    (s t : OrderState) (e : Bool)
    → can_transition s t e ≡ true
    → (rank s < rank t) ⊎ ((s ≡ partial) × (t ≡ partial))
unfolding can_transition
step_rank proposed t e h = ground arith
step_rank _ t e h = ground arith

step_at_broker :
    (s t : OrderState) (e : Bool)
    → can_transition s t e ≡ true
    → at_broker s ≡ false
    → at_broker t ≡ true
    → s ≡ submitting
unfolding can_transition
step_at_broker proposed t e h a b = ground arith
step_at_broker _ t e h a b = ground arith

-- One accepted request at the head of a walk.
walk_head :
    (s t u : OrderState) (e : Bool) (rest : List (OrderState × Bool))
    → walk s ((t, e) ∷ rest) ≡ some u
    → (can_transition s t e ≡ true) × (walk t rest ≡ some u)
unfolding walk
walk_head s t u e rest h = ground arith

walk-rank :
    (s u : OrderState) (rest : List (OrderState × Bool))
    → walk s rest ≡ some u
    → (rank s < rank u) ⊎ ((rank u ≡ rank s) × ((rest ≡ []) ⊎ (s ≡ partial)))
unfolding walk
walk-rank s u [] h = ground arith
walk-rank s u ((t, e) ∷ rest) h =
    let (ok, more) = walk_head s t u e rest h in
    grind (arith, step_rank s t e ok, walk-rank t u rest more)

-- An order never comes back to a state that it has left, except that PARTIAL may follow PARTIAL: if
-- a list of at least one request, with any evidence, is accepted from a state and ends in that
-- state, the state is PARTIAL.
pub walk-never_returns :
    (s t : OrderState) (e : Bool) (rest : List (OrderState × Bool))
    → walk s ((t, e) ∷ rest) ≡ some s
    → s ≡ partial
walk-never_returns s t e rest h = grind (arith, walk-rank s s ((t, e) ∷ rest) h)

walk_submitting :
    (s u : OrderState) (rest : List (OrderState × Bool))
    → walk s rest ≡ some u
    → at_broker s ≡ false
    → at_broker u ≡ true
    → (s ≡ submitting) ⊎ Memᴰ submitting (visited rest)
unfolding walk
walk_submitting s u [] h a b = ground arith
walk_submitting s u ((t, e) ∷ rest) h a b =
    let (ok, more) = walk_head s t u e rest h in
    elim (Bool-cases (at_broker t)) [
      | inl there ↦ inl (step_at_broker s t e ok a there)
      | inr here ↦ elim (walk_submitting t u rest more here b) [
        | inl now ↦ inr (Memᴰ.head (sym now))
        | inr later ↦ inr (Memᴰ.tail later)
      ]
    ]

-- An order that starts as PROPOSED and is at or past the broker (unknown, open, partly filled,
-- filled, canceled or expired) has been SUBMITTING on the way.
pub walk-passes_submitting :
    (u : OrderState) (rest : List (OrderState × Bool))
    → walk proposed rest ≡ some u
    → at_broker u ≡ true
    → Memᴰ submitting (visited rest)
walk-passes_submitting u rest h b = elim (walk_submitting proposed u rest h refl b) [
  | inl e ↦ absurd (cc e)
  | inr m ↦ m
]

-- ===== src/Replay/Tests.antt =====
-- app/replay/engine.py on two events that arrive in the wrong order.
use sentry.Prelude.{
  ℕ, ◌≡◌, refl, [], ◌∷◌, ◌==◌, if◌then◌else◌, arith, some, sym, ap, inl, inr, false, Bool-cases,
}
use sentry.Prelude.Dict.{Dict, lookup}
use mathlib.Core.List.{Permᴰ}
use sentry.Replay.Engine.{
  ReplayEvent, CausalReplayContext, Handler, Answer, Progress, ok, run, sort_events, repeats,
}
use sentry.Replay.Engine.Order.{run-reordered}
use sentry.Replay.Engine.Returns.{IsPrompt, run-ok}
use sentry.Domain.Market.{Label}
use mathlib.Core.Option.{some-injective}
use sentry.Replay.Engine.Causal.{IsCausal, run-IsCausal}

abbrev first : ReplayEvent
first = record {
  event_id = 1;
  kind = 4;
  effective_at = 5;
  available_at = 10;
  payload = 7;
  sequence = 0;
}

-- Earlier in effect than the first, and available later.
abbrev second : ReplayEvent
second = record {
  event_id = 2;
  kind = 5;
  effective_at = 3;
  available_at = 20;
  payload = 8;
  sequence = 0;
}

abbrev catalog : ℕ → ReplayEvent
catalog id = if id == 1 then first else second

-- The handler of the first kind sleeps for 6.
abbrev handlers : Dict Handler
handlers = (4, λ e c. Answer.returns 6 e.payload) ∷ []

abbrev opening : CausalReplayContext
opening = record { now = 0; observed = [] }

abbrev closing : CausalReplayContext
closing = record { now = 20; observed = first ∷ second ∷ [] }

replayed : run handlers (second ∷ first ∷ []) opening ≡ ok (closing, 7 ∷ [])
unfolding run sentry.Replay.Engine.insert_event sentry.Replay.Engine.before
replayed = refl

run-reordered_example :
    run handlers (second ∷ first ∷ []) opening ≡ run handlers (first ∷ second ∷ []) opening
run-reordered_example =
    run-reordered catalog handlers opening (Permᴰ.swap refl refl) (refl, (refl, tt))

run-IsCausal_example : IsCausal opening closing (sort_events (second ∷ first ∷ []))
run-IsCausal_example = run-IsCausal handlers (second ∷ first ∷ []) opening tt replayed

-- A handler of the first kind that does not sleep.
abbrev prompt_handlers : Dict Handler
prompt_handlers = (4, λ e c. Answer.returns 0 e.payload) ∷ []

prompt : (kind : Label) (f : Handler) → lookup kind prompt_handlers ≡ some f → IsPrompt f
prompt kind f found e c = elim (Bool-cases (kind == 4)) [
  | inl same ↦
      let is : some (λ e c. Answer.returns 0 e.payload) ≡ some f =
        rw (same, lookup, if◌then◌else◌) at found in
      (e.payload, sym (ap (λ g. g e c) (some-injective _ _ is)))
  | inr other ↦ absurd (cc (rw (other, lookup, if◌then◌else◌) at found))
]

once : repeats (sort_events (second ∷ first ∷ [])) ≡ false
unfolding sort_events sentry.Replay.Engine.insert_event sentry.Replay.Engine.before
once = refl

run-ok_example :
    (q : Progress) × (run prompt_handlers (second ∷ first ∷ []) opening ≡ ok q)
    × (q.0.observed ≡ sort_events (second ∷ first ∷ []))
run-ok_example =
    run-ok prompt_handlers prompt 0 (second ∷ first ∷ []) (omega arith, (omega arith, tt)) once

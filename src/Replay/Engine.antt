-- ===== src/Replay/Engine.antt =====
-- app/replay/engine.py: `CausalReplayContext` and `ReplayEngine.run`, with the `VirtualClock` of
-- app/clock/base.py that they read.
pub mod Order
pub mod Causal
pub mod Returns
use sentry.Prelude.{
  ℕ, ◌+◌, Bool, true, false, ◌&&◌, ◌||◌, Option, none, some, List, [], ◌∷◌, ◌++◌, ltb, leb, ◌==◌,
  if◌then◌else◌,
}
use sentry.Prelude.Dict.{Dict, lookup}
use sentry.Domain.Market.{Label, Time}

-- An event identifier is its place in the order of texts; the hash of the payload is its content.
pub record ReplayEvent : Type 0 where
  pub event_id : ℕ
  pub kind : Label
  pub effective_at : Time
  pub available_at : Time
  pub payload : Label
  pub sequence : ℕ

pub data Error : Type 0 where
  duplicate_ids clock_backward future_event duplicate_event : Error
  handler_raised : ℕ → Error

-- The virtual clock's time, and the events that the context has observed; `_by_kind` lists them again.
pub record CausalReplayContext : Type 0 where
  pub now : Time
  pub observed : List ReplayEvent

pub data Result (A : Type 0) : Type 0 where
  ok : A → Result A
  err : Error → Result A

-- What a handler does: it returns after sleeping on the clock, with the hash of its value, or raises.
pub data Answer : Type 0 where
  returns : Time → Label → Answer
  raises : ℕ → Answer

abbrev pub Handler : Type 0
Handler = ReplayEvent → CausalReplayContext → Answer

-- `causal_key` of the first is at most that of the second
unfoldable pub before : ReplayEvent → ReplayEvent → Bool
before a b =
    ltb a.available_at b.available_at
    || (a.available_at == b.available_at
        && (ltb a.sequence b.sequence
            || (a.sequence == b.sequence
                && (ltb a.effective_at b.effective_at
                    || (a.effective_at == b.effective_at && leb a.event_id b.event_id)))))

unfoldable pub insert_event : ReplayEvent → List ReplayEvent → List ReplayEvent
insert_event e [] = e ∷ []
insert_event e (d ∷ rest) =
    let later = insert_event e rest in if before e d then e ∷ d ∷ rest else d ∷ later

-- `sorted(events, key=lambda item: item.causal_key)`
unfoldable pub sort_events : List ReplayEvent → List ReplayEvent
sort_events [] = []
sort_events (e ∷ rest) = insert_event e (sort_events rest)

abbrev pub has_id : ℕ → List ReplayEvent → Bool
has_id id [] = false
has_id id (e ∷ rest) = if e.event_id == id then true else has_id id rest

abbrev pub repeats : List ReplayEvent → Bool
repeats [] = false
repeats (e ∷ rest) = has_id e.event_id rest || repeats rest

-- `advance_to`: none where it raises
unfoldable pub advance_to : Time → CausalReplayContext → Option CausalReplayContext
advance_to target c = if ltb target c.now then none else some (record c { now = target })

-- `observe`
unfoldable pub observe : ReplayEvent → CausalReplayContext → Result CausalReplayContext
observe e c =
    if ltb c.now e.available_at
    then err Error.future_event
    else if has_id e.event_id c.observed
    then err Error.duplicate_event
    else ok (record c { observed = c.observed ++ (e ∷ []) })

-- `events` of every kind: those that are available at this instant
unfoldable pub events : CausalReplayContext → List ReplayEvent → List ReplayEvent
events c [] = []
events c (e ∷ rest) =
    let more = events c rest in if leb e.available_at c.now then e ∷ more else more

-- The state of a run: the context, and the hashes of the outputs so far.
abbrev pub Progress : Type 0
Progress = CausalReplayContext × List Label

abbrev pub after_handler : List Label → CausalReplayContext → Answer → Result Progress
after_handler outputs c (Answer.raises n) = err (Error.handler_raised n)
after_handler outputs c (Answer.returns slept output) =
    ok (record c { now = c.now + slept }, outputs ++ (output ∷ []))

abbrev pub handle :
    ReplayEvent → List Label → CausalReplayContext → Option Handler → Result Progress
handle e outputs c none = ok (c, outputs)
handle e outputs c (some handler) = after_handler outputs c (handler e c)

abbrev pub after_observe :
    Dict Handler → ReplayEvent → List Label → Result CausalReplayContext → Result Progress
after_observe handlers e outputs (err x) = err x
after_observe handlers e outputs (ok c) = handle e outputs c (lookup e.kind handlers)

abbrev pub after_advance :
    Dict Handler → ReplayEvent → List Label → Option CausalReplayContext → Result Progress
after_advance handlers e outputs none = err Error.clock_backward
after_advance handlers e outputs (some c) = after_observe handlers e outputs (observe e c)

-- One round of the loop of `run`
unfoldable pub deliver : Dict Handler → ReplayEvent → Progress → Result Progress
unfolding advance_to observe
deliver handlers e (c, outputs) = after_advance handlers e outputs (advance_to e.available_at c)

unfoldable pub deliver_all : Dict Handler → List ReplayEvent → Progress → Result Progress
unfolding deliver
deliver_all handlers [] p = ok p
deliver_all handlers (e ∷ rest) p = elim (deliver handlers e p) [
  | ok q ↦ deliver_all handlers rest q
  | err x ↦ err x
]

abbrev pub starts_late : Time → List ReplayEvent → Bool
starts_late now [] = false
starts_late now (e ∷ rest) = ltb e.available_at now

-- `run` on the ordered events
unfoldable pub run_ordered : Dict Handler → List ReplayEvent → CausalReplayContext → Result Progress
unfolding deliver_all
run_ordered handlers ordered c =
    let delivered = deliver_all handlers ordered (c, []) in
    if repeats ordered
    then err Error.duplicate_ids
    else if starts_late c.now ordered
    then err Error.clock_backward
    else delivered

-- `run`: the context and the hashes of the outputs at its end
unfoldable pub run : Dict Handler → List ReplayEvent → CausalReplayContext → Result Progress
unfolding run_ordered sort_events
run handlers arriving c = run_ordered handlers (sort_events arriving) c

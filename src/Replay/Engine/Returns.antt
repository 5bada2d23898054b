-- ===== src/Replay/Engine/Returns.antt =====
-- app/replay/engine.py: a replay comes to its end.
use sentry.Prelude.{
  ℕ, ◌+◌, ◌≤◌, ◌≡◌, refl, inl, inr, true, false, some, List, [], ◌∷◌, ◌++◌, arith, All, ltb, ◌==◌,
  if◌then◌else◌, Bool-cases, Option-cases,
}
use sentry.Prelude.Dict.{Dict, lookup}
use sentry.Domain.Market.{Time, Label}
use sentry.Replay.Engine.Causal.{run-IsCausal}
use sentry.Replay.Engine.{
  ReplayEvent, CausalReplayContext, Handler, Answer, ok, Progress, advance_to, observe,
  after_handler, deliver, deliver_all, run_ordered, run, sort_events, insert_event, has_id, repeats,
  starts_late, before,
}

-- Available by the first, then by the second
abbrev IsAfter : Time → List ReplayEvent → Type 0
IsAfter now [] = Unit
IsAfter now (e ∷ l) = (now ≤ e.available_at) × IsAfter e.available_at l

before_available : (e d : ReplayEvent) → before e d ≡ true → e.available_at ≤ d.available_at
unfolding before
before_available e d h = ground arith

available_before : (e d : ReplayEvent) → before e d ≡ false → d.available_at ≤ e.available_at
unfolding before
available_before e d h = ground arith

on_time : (s t : Time) → s ≤ t → ltb t s ≡ false
on_time s t h = ground arith

add_zero : (n : ℕ) → n + 0 ≡ n
add_zero n = omega arith

IsAfter-insert_event :
    (now : Time) (e : ReplayEvent) (l : List ReplayEvent)
    → now ≤ e.available_at
    → IsAfter now l
    → IsAfter now (insert_event e l)
unfolding insert_event
IsAfter-insert_event now e [] h k = (h, tt)
IsAfter-insert_event now e (d ∷ l) h k = elim (Bool-cases (before e d)) [
  | inl first ↦ rw (first, if◌then◌else◌) (h, (before_available e d first, k.1))
  | inr last ↦
      rw (last, if◌then◌else◌)
        (k.0, IsAfter-insert_event d.available_at e l (available_before e d last) k.1)
]

IsAfter-sort_events :
    (now : Time) (l : List ReplayEvent)
    → All (λ e. now ≤ e.available_at) l
    → IsAfter now (sort_events l)
unfolding sort_events
IsAfter-sort_events now [] h = tt
IsAfter-sort_events now (e ∷ l) h =
    IsAfter-insert_event now e (sort_events l) h.0 (IsAfter-sort_events now l h.1)

-- A handler that neither raises nor sleeps.
abbrev pub IsPrompt : Handler → Type 0
IsPrompt f =
    (e : ReplayEvent) (c : CausalReplayContext)
    → (output : Label) × (f e c ≡ Answer.returns 0 output)

module _ (handlers : Dict Handler)
    (prompt : (kind : Label) (f : Handler) → lookup kind handlers ≡ some f → IsPrompt f) where
  -- An event that is neither late nor known is delivered.
  deliver-ok :
      (e : ReplayEvent) (c : CausalReplayContext) (outputs : List Label)
      → c.now ≤ e.available_at
      → has_id e.event_id c.observed ≡ false
      → (more : List Label) × (deliver handlers e (c, outputs)
          ≡ ok (record { now = e.available_at; observed = c.observed ++ (e ∷ []) }, more))
  unfolding deliver advance_to observe
  deliver-ok e c outputs le fresh =
      let late = on_time c.now e.available_at le in
      let on_the_dot = on_time e.available_at e.available_at (omega arith) in
      elim (Option-cases (lookup e.kind handlers)) [
        | inl missing ↦ (outputs, rw (late, if◌then◌else◌, on_the_dot, fresh, missing) refl)
        | inr (f, found) ↦
            let seen : CausalReplayContext = record {
              now = e.available_at;
              observed = c.observed ++ (e ∷ []);
            } in
            let (output, came) = prompt e.kind f found e seen in
            (
              outputs ++ (output ∷ []),
              rw
                  (
                    late,
                    if◌then◌else◌,
                    on_the_dot,
                    fresh,
                    found,
                    came,
                    after_handler,
                    add_zero e.available_at,
                  )
                  refl,
            )
      ]

  -- No event of the list is known to the context.
  abbrev IsFresh : List ReplayEvent → ReplayEvent → Type 0
  IsFresh observed e = has_id e.event_id observed ≡ false

  has_id-with :
      (id : ℕ) (l : List ReplayEvent) (d : ReplayEvent)
      → has_id id l ≡ false
      → (d.event_id == id) ≡ false
      → has_id id (l ++ (d ∷ [])) ≡ false
  has_id-with id [] d h k = ground arith
  has_id-with id (e ∷ l) d h k = ground (arith, has_id-with id l d)

  has_id-cons :
      (id : ℕ) (e : ReplayEvent) (l : List ReplayEvent)
      → has_id id (e ∷ l) ≡ false
      → ((id == e.event_id) ≡ false) × (has_id id l ≡ false)
  has_id-cons id e l k = (ground arith, ground arith)

  IsFresh-with :
      (observed l : List ReplayEvent) (d : ReplayEvent)
      → All (IsFresh observed) l
      → has_id d.event_id l ≡ false
      → All (IsFresh (observed ++ (d ∷ []))) l
  IsFresh-with observed [] d h k = tt
  IsFresh-with observed (e ∷ l) d h k =
      let (differs, absent) = has_id-cons d.event_id e l k in
      (has_id-with e.event_id observed d h.0 differs, IsFresh-with observed l d h.1 absent)

  repeats-cons :
      (e : ReplayEvent) (l : List ReplayEvent)
      → repeats (e ∷ l) ≡ false
      → (has_id e.event_id l ≡ false) × (repeats l ≡ false)
  repeats-cons e l h = (ground arith, ground arith)

  deliver_all-ok :
      (l : List ReplayEvent) (c : CausalReplayContext) (outputs : List Label)
      → IsAfter c.now l
      → All (IsFresh c.observed) l
      → repeats l ≡ false
      → (q : Progress) × (deliver_all handlers l (c, outputs) ≡ ok q)
  unfolding deliver_all
  deliver_all-ok [] c outputs after fresh once = ((c, outputs), refl)
  deliver_all-ok (e ∷ l) c outputs after fresh once =
      let (more, came) = deliver-ok e c outputs after.0 fresh.0 in
      let (q, ended) =
        deliver_all-ok l (record { now = e.available_at; observed = c.observed ++ (e ∷ []) }) more
          after.1 (IsFresh-with c.observed l e fresh.1 (repeats-cons e l once).0)
          (repeats-cons e l once).1 in
      (q, rw (came, deliver_all) ended)

  starts_late-IsAfter :
      (now : Time) (l : List ReplayEvent) → IsAfter now l → starts_late now l ≡ false
  starts_late-IsAfter now [] h = refl
  starts_late-IsAfter now (e ∷ l) h = on_time now e.available_at h.0

  unknown : (l : List ReplayEvent) → All (IsFresh []) l
  unknown [] = tt
  unknown (e ∷ l) = (refl, unknown l)

  -- A replay in a new context comes to its end, having observed exactly its events as `sort_events`
  -- orders them, when no event is available before the clock's time, no identifier is repeated, and the
  -- handlers neither raise nor sleep.
  pub run-ok :
      (now : Time) (arriving : List ReplayEvent)
      → All (λ e. now ≤ e.available_at) arriving
      → repeats (sort_events arriving) ≡ false
      → (q : Progress) × (run handlers arriving (record { now = now; observed = [] }) ≡ ok q)
        × (q.0.observed ≡ sort_events arriving)
  unfolding run run_ordered
  run-ok now arriving later once =
      let opening : CausalReplayContext = record { now = now; observed = [] } in
      let after = IsAfter-sort_events now arriving later in
      let (q, came) =
        deliver_all-ok (sort_events arriving) opening [] after (unknown (sort_events arriving))
          once in
      let returned : run handlers arriving opening ≡ ok q =
        rw (once, if◌then◌else◌, starts_late-IsAfter now (sort_events arriving) after) came in
      (q, returned, (run-IsCausal handlers arriving opening tt returned).history)

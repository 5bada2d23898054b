-- ===== src/Replay/Engine/Causal.antt =====
-- app/replay/engine.py: what the context of a replay has seen.
use sentry.Prelude.{
  ◌⊎◌, ◌≤◌, ◌≡◌, refl, sym, ap, ◌∙◌, inl, inr, Bool, true, false, Option, none, some, List, [], ◌∷◌,
  ◌++◌, arith, All, ltb, if◌then◌else◌, Bool-cases,
}
use mathlib.Core.Path.{subst}
use sentry.Prelude.Dict.{Dict, lookup}
use sentry.Domain.Market.{Time, Label}
use sentry.Replay.Engine.{
  ReplayEvent, CausalReplayContext, Handler, Answer, Result, ok, err, Progress, advance_to, observe,
  after_handler, handle, after_observe, deliver, deliver_all, run_ordered, run, sort_events, events,
  Error, has_id, repeats, starts_late,
}

-- An event that is available by this time.
abbrev pub IsAvailable : Time → ReplayEvent → Type 0
IsAvailable now e = e.available_at ≤ now

IsAvailable-later :
    {s t : Time} (l : List ReplayEvent) → s ≤ t → All (IsAvailable s) l → All (IsAvailable t) l
IsAvailable-later [] le h = tt
IsAvailable-later (e ∷ l) le h = (omega arith, IsAvailable-later l le h.1)

IsAvailable-with :
    {t : Time} (l : List ReplayEvent) (e : ReplayEvent)
    → All (IsAvailable t) l
    → IsAvailable t e
    → All (IsAvailable t) (l ++ (e ∷ []))
IsAvailable-with [] e h k = (k, tt)
IsAvailable-with (d ∷ l) e h k = (h.0, IsAvailable-with l e h.1 k)

append_assoc :
    (l : List ReplayEvent) (e : ReplayEvent) (m : List ReplayEvent)
    → (l ++ (e ∷ [])) ++ m ≡ l ++ (e ∷ m)
append_assoc [] e m = refl
append_assoc (d ∷ l) e m = ap (λ t. d ∷ t) (append_assoc l e m)

append_nil : (l : List ReplayEvent) → l ++ [] ≡ l
append_nil [] = refl
append_nil (d ∷ l) = ap (λ t. d ∷ t) (append_nil l)

-- A context whose events are those observed before and these, all available by its time.
pub record IsCausal (before after : CausalReplayContext) (seen : List ReplayEvent) : Type 0 where
  pub onward : before.now ≤ after.now
  pub history : after.observed ≡ before.observed ++ seen
  pub available : All (IsAvailable after.now) after.observed

-- Where a result is no error, it has the property.
abbrev pub Ensures : {A : Type 0} → (A → Type 0) → Result A → Type 0
Ensures Q (ok a) = Q a
Ensures Q (err x) = Unit

Result-cases : {A : Type 0} (r : Result A) → ((a : A) × (r ≡ ok a)) ⊎ ((x : Error) × (r ≡ err x))
Result-cases (ok a) = inl (a, refl)
Result-cases (err x) = inr (x, refl)

module _ (c : CausalReplayContext) (e : ReplayEvent) (outputs : List Label)
    (visible : All (IsAvailable c.now) c.observed) where
  abbrev Delivered : Progress → Type 0
  Delivered q = IsCausal c q.0 (e ∷ [])

  after_handler-Delivered :
      (d : CausalReplayContext) (a : Answer)
      → IsCausal c d (e ∷ [])
      → Ensures Delivered (after_handler outputs d a)
  after_handler-Delivered d (Answer.raises n) h = tt
  after_handler-Delivered d (Answer.returns slept output) h = record {
    onward = let at = h.onward in omega arith;
    history = h.history;
    available = IsAvailable-later d.observed (omega arith) h.available;
  }

  handle-Delivered :
      (d : CausalReplayContext) (f : Option Handler)
      → IsCausal c d (e ∷ [])
      → Ensures Delivered (handle e outputs d f)
  handle-Delivered d none h = h
  handle-Delivered d (some f) h = after_handler-Delivered d (f e d) h

  after_observe-Delivered :
      (handlers : Dict Handler) (r : Result CausalReplayContext)
      → Ensures (λ d. IsCausal c d (e ∷ [])) r
      → Ensures Delivered (after_observe handlers e outputs r)
  after_observe-Delivered handlers (ok d) h = handle-Delivered d (lookup e.kind handlers) h
  after_observe-Delivered handlers (err x) h = tt

  not_late : ltb e.available_at c.now ≡ false → c.now ≤ e.available_at
  not_late h = ground arith

  on_the_dot : ltb e.available_at e.available_at ≡ false
  on_the_dot = ground arith

  observe-IsCausal :
      c.now ≤ e.available_at
      → Ensures (λ d. IsCausal c d (e ∷ [])) (observe e (record c { now = e.available_at }))
  unfolding observe
  observe-IsCausal le = elim (Bool-cases (has_id e.event_id c.observed)) [
    | inl known ↦ rw (on_the_dot, if◌then◌else◌, known) tt
    | inr fresh ↦
        rw (on_the_dot, if◌then◌else◌, fresh)
          (record {
            onward = le;
            history = refl;
            available =
                IsAvailable-with c.observed e (IsAvailable-later c.observed le visible)
                  (omega arith);
          })
  ]

  deliver-IsCausal : (handlers : Dict Handler) → Ensures Delivered (deliver handlers e (c, outputs))
  unfolding deliver advance_to
  deliver-IsCausal handlers = elim (Bool-cases (ltb e.available_at c.now)) [
    | inl late ↦ rw (late, if◌then◌else◌) tt
    | inr on_time ↦
        rw (on_time, if◌then◌else◌)
          (after_observe-Delivered handlers (observe e (record c { now = e.available_at }))
            (observe-IsCausal (not_late on_time)))
  ]

IsCausal-then :
    (c d t : CausalReplayContext) (e : ReplayEvent) (l : List ReplayEvent)
    → IsCausal c d (e ∷ [])
    → IsCausal d t l
    → IsCausal c t (e ∷ l)
IsCausal-then c d t e l h k = record {
  onward = let at = h.onward in let on = k.onward in omega arith;
  history = k.history ∙ ap (λ m. m ++ l) h.history ∙ append_assoc c.observed e l;
  available = k.available;
}

Ensures-map :
    {A : Type 0} {Q R : A → Type 0} (r : Result A)
    → ((a : A) → Q a → R a)
    → Ensures Q r
    → Ensures R r
Ensures-map (ok a) f h = f a h
Ensures-map (err x) f h = tt

Ensures-if :
    {A : Type 0} (Q : A → Type 0) (t : Bool) (r s : Result A)
    → Ensures Q r
    → Ensures Q s
    → Ensures Q (if t then r else s)
Ensures-if Q true r s h k = h
Ensures-if Q false r s h k = k

deliver_all-IsCausal :
    (handlers : Dict Handler) (l : List ReplayEvent) (c : CausalReplayContext)
    (outputs : List Label)
    → All (IsAvailable c.now) c.observed
    → Ensures (λ q. IsCausal c q.0 l) (deliver_all handlers l (c, outputs))
unfolding deliver_all
deliver_all-IsCausal handlers [] c outputs h = record {
  onward = omega arith;
  history = sym (append_nil c.observed);
  available = h;
}
deliver_all-IsCausal handlers (e ∷ l) c outputs h =
    elim (Result-cases (deliver handlers e (c, outputs))) [
      | inl ((d, more), came) ↦
          let first : IsCausal c d (e ∷ []) =
            subst (Ensures (λ q. IsCausal c q.0 (e ∷ []))) came
              (deliver-IsCausal c e outputs h handlers) in
          rw (came, Ensures, deliver_all)
            (Ensures-map (deliver_all handlers l (d, more)) (λ q. IsCausal-then c d q.0 e l first)
              (deliver_all-IsCausal handlers l d more first.available))
      | inr (x, failed) ↦ rw (failed, Ensures, deliver_all) tt
    ]

run-Ensures :
    (handlers : Dict Handler) (arriving : List ReplayEvent) (c : CausalReplayContext)
    → All (IsAvailable c.now) c.observed
    → Ensures (λ q. IsCausal c q.0 (sort_events arriving)) (run handlers arriving c)
unfolding run run_ordered
run-Ensures handlers arriving c h = Ensures-if _ (repeats (sort_events arriving)) _ _ tt (
    Ensures-if _ (starts_late c.now (sort_events arriving)) _ _ tt
      (deliver_all-IsCausal handlers (sort_events arriving) c [] h))

-- A replay that returns has not turned the clock back, has observed its own events, as `sort_events`
-- orders them, after those observed before, and has observed none that is not available by then,
-- whatever its handlers answer and however long they sleep. The context that it starts with must hold
-- no event of the future.
pub run-IsCausal :
    (handlers : Dict Handler) (arriving : List ReplayEvent) (c : CausalReplayContext) {q : Progress}
    → All (IsAvailable c.now) c.observed
    → run handlers arriving c ≡ ok q
    → IsCausal c q.0 (sort_events arriving)
run-IsCausal handlers arriving c h e =
    subst (Ensures (λ q. IsCausal c q.0 (sort_events arriving))) e
      (run-Ensures handlers arriving c h)

-- The second check of `events` hides nothing from a context without events of the future.
events-IsAvailable :
    (c : CausalReplayContext) (l : List ReplayEvent) → All (IsAvailable c.now) l → events c l ≡ l
unfolding events
events-IsAvailable c [] h = refl
events-IsAvailable c (e ∷ l) h = ground (arith, h.0, events-IsAvailable c l h.1)

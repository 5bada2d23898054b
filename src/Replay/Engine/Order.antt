-- ===== src/Replay/Engine/Order.antt =====
-- app/replay/engine.py: a replay does not depend on the order in which its events arrive.
use sentry.Prelude.{
  ℕ, ◌≡◌, refl, sym, ap, ◌∙◌, inl, inr, true, false, List, [], ◌∷◌, arith, All, if◌then◌else◌,
  Bool-cases,
}
use mathlib.Core.List.{Permᴰ}
use mathlib.Core.Path.{subst}
use sentry.Prelude.Dict.{Dict}
use sentry.Replay.Engine.{
  ReplayEvent, CausalReplayContext, Handler, before, insert_event, sort_events, run, run_ordered,
}

before_trans : (a b c : ReplayEvent) → before a b ≡ true → before b c ≡ true → before a c ≡ true
unfolding before
before_trans a b c h k = ground arith

before_total : (a b : ReplayEvent) → before a b ≡ false → before b a ≡ true
unfolding before
before_total a b h = ground arith

before_antisym :
    (a b : ReplayEvent) → before a b ≡ true → before b a ≡ true → a.event_id ≡ b.event_id
unfolding before
before_antisym a b h k = ground arith

-- Inserting two events in either order gives one list.
insert_earlier :
    (a b : ReplayEvent) (l : List ReplayEvent)
    → before a b ≡ true
    → before b a ≡ false
    → insert_event a (insert_event b l) ≡ insert_event b (insert_event a l)
unfolding insert_event
insert_earlier a b [] ab ba = rw (ab, ba, if◌then◌else◌) refl
insert_earlier a b (d ∷ l) ab ba = elim (Bool-cases (before b d)) [
  | inl bd ↦ let ad = before_trans a b d ab bd in rw (bd, ad, ab, ba, if◌then◌else◌, bd) refl
  | inr bd ↦ elim (Bool-cases (before a d)) [
    | inl ad ↦ rw (bd, ad, ba, if◌then◌else◌, bd) refl
    | inr ad ↦ rw (bd, ad, if◌then◌else◌, bd) (ap (λ t. d ∷ t) (insert_earlier a b l ab ba))
  ]
]

insert_event_comm :
    (a b : ReplayEvent) (l : List ReplayEvent)
    → (a.event_id ≡ b.event_id → a ≡ b)
    → insert_event a (insert_event b l) ≡ insert_event b (insert_event a l)
insert_event_comm a b l same = elim (Bool-cases (before a b)) [
  | inl ab ↦ elim (Bool-cases (before b a)) [
    | inl ba ↦
        subst (λ z. insert_event a (insert_event z l) ≡ insert_event z (insert_event a l))
          (same (before_antisym a b ab ba)) refl
    | inr ba ↦ insert_earlier a b l ab ba
  ]
  | inr ab ↦ sym (insert_earlier b a l (before_total a b ab) ab)
]

-- `catalog` gives the event that an identifier names.
module _ (catalog : ℕ → ReplayEvent) where
  abbrev pub IsNamed : ReplayEvent → Type 0
  IsNamed e = catalog e.event_id ≡ e

  IsNamed-reordered : {xs ys : List ReplayEvent} → Permᴰ xs ys → All IsNamed xs → All IsNamed ys
  IsNamed-reordered Permᴰ.nil h = h
  IsNamed-reordered (Permᴰ.cons e p) h = (subst IsNamed e h.0, IsNamed-reordered p h.1)
  IsNamed-reordered (Permᴰ.swap e f) h = (subst IsNamed f h.1.0, (subst IsNamed e h.0, h.1.1))
  IsNamed-reordered (Permᴰ.trans p q) h = IsNamed-reordered q (IsNamed-reordered p h)

  sort_events-reordered :
      {xs ys : List ReplayEvent} → Permᴰ xs ys → All IsNamed xs → sort_events xs ≡ sort_events ys
  unfolding sort_events
  sort_events-reordered Permᴰ.nil h = refl
  sort_events-reordered (Permᴰ.cons {a = a} {b = b} {l₁ = l} {l₂ = m} e p) h =
      ap (insert_event a) (sort_events-reordered p h.1) ∙ ap (λ z. insert_event z (sort_events m)) e
  sort_events-reordered (Permᴰ.swap {a = a} {b = b} {a' = a'} {b' = b'} {l = l} e f) h =
      insert_event_comm a b (sort_events l) (λ same. sym h.0 ∙ ap catalog same ∙ h.1.0)
      ∙ ap (λ z. insert_event z (insert_event a (sort_events l))) f
      ∙ ap (λ z. insert_event a' (insert_event z (sort_events l))) e
  sort_events-reordered (Permᴰ.trans p q) h =
      sort_events-reordered p h ∙ sort_events-reordered q (IsNamed-reordered p h)

  -- A replay depends on its events, and not on the order in which they arrive: any two orders give the
  -- same context and the same outputs, or raise the same error. An identifier must name one event.
  pub run-reordered :
      (handlers : Dict Handler) (c : CausalReplayContext) {xs ys : List ReplayEvent}
      → Permᴰ xs ys
      → All IsNamed xs
      → run handlers xs c ≡ run handlers ys c
  unfolding run
  run-reordered handlers c p h = ap (λ l. run_ordered handlers l c) (sort_events-reordered p h)

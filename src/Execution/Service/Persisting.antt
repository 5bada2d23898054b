-- ===== src/Execution/Service/Persisting.antt =====
-- app/execution/service.py: what is known of an intent and its command at each save on the way to the
-- broker.
use mathlib.Core.Path.{subst}
use sentry.Prelude.{
  ℕ, ◌≡◌, ◌≢◌, refl, sym, ap, ◌∙◌, true, false, Option, none, some, List, [], ◌∷◌, is_some, All,
}
use sentry.Prelude.Dict.{lookup}
use sentry.Domain.Enums.{OrderState}
use sentry.Domain.Order.{OrderIntent, BrokerCommandIntent, BrokerOrder}
use sentry.Execution.Error.{Error, Result, ok, err}
use sentry.Execution.Store.{
  Store, Method, TransitionReason, save_order_intent, save_command_intent, save_order,
}
use sentry.Execution.Store.Grows.{Grows-refl, IsIndexed, MethodGrows, save_order_intent-MethodGrows}
use sentry.Execution.Store.Methods.{save_command_intent-MethodGrows, save_order-MethodGrows}
use sentry.Execution.Store.Saves.{
  save_order_intent-new, save_order_intent-stored, save_command_intent-stored, save_order-stored,
}
use sentry.Execution.Service.State.{
  World, ServiceState, Transmission, stored, store_access, next_turn,
}
use sentry.Execution.Service.Placement.{persist}
use sentry.Execution.Service.Rules.{Condition, After, Triple, bind-Triple}
use sentry.Execution.Service.Quiet.{Quiet, IsStable, quiet-Triple}
use sentry.Execution.Service.Parts.{record_step-IsQuiet}
use sentry.Execution.Service.Sent.{IsRecorded, Requested, IsSafe, IsSafe-IsStable}

-- The intent differs from what was sent with a command.
abbrev pub Unsent : OrderIntent → Transmission → Type 0
Unsent i x =
    (i.intent_id ≢ x.command.order_intent_id)
    × (i.order_fingerprint ≢ x.command.order_fingerprint)
    × (i.idempotency_key ≢ x.command.idempotency_key)

-- The command carries out the intent.
abbrev pub Agrees : OrderIntent → BrokerCommandIntent → Type 0
Agrees i c =
    (c.order_intent_id ≡ i.intent_id)
    × (c.order_fingerprint ≡ i.order_fingerprint)
    × (c.idempotency_key ≡ i.idempotency_key)

module _ (w : World) (R : Requested) (i : OrderIntent) where
  -- The intent is in the store, and nothing was sent for it.
  pub record HasIntent (s : ServiceState) : Type 0 where
    pub safe : IsSafe w R s
    pub unsent : All (Unsent i) s.sent
    pub intent : lookup i.intent_id s.store.order_intents ≡ some i

  pub record HasCommand (c : BrokerCommandIntent) (s : ServiceState) : Type 0 where
    pub has : HasIntent s
    pub command : lookup c.command_intent_id s.store.command_intents ≡ some c

  pub record HasOrder (c : BrokerCommandIntent) (s : ServiceState) : Type 0 where
    pub has : HasCommand c s
    pub order : is_some (lookup i.intent_id s.store.orders) ≡ true

  pub HasIntent-IsStable : IsStable HasIntent
  HasIntent-IsStable = record {
    at = λ q h. record {
      safe = (IsSafe-IsStable w R).at q h.safe;
      unsent = subst (All (Unsent i)) (sym q.same_sent) h.unsent;
      intent = q.grows.intents _ _ h.intent;
    };
  }

  pub HasCommand-IsStable : (c : BrokerCommandIntent) → IsStable (HasCommand c)
  HasCommand-IsStable c = record {
    at = λ q h. record {
      has = HasIntent-IsStable.at q h.has;
      command = q.grows.commands _ _ h.command;
    };
  }

  pub HasOrder-IsStable : (c : BrokerCommandIntent) → IsStable (HasOrder c)
  HasOrder-IsStable c = record {
    at = λ q h. record {
      has = (HasCommand-IsStable c).at q h.has;
      order = q.grows.orders _ h.order;
    };
  }

module _ (w : World) {A : Type 0} (m : Method A) (P : Condition) (Q : A → Condition) (R : Condition)
    (failed : (s t : ServiceState) → P s → Quiet s t → R t)
    (saved : (s t : ServiceState) (a : A)
      → P s
      → Quiet s t
      → t.store ≡ (m s.store).1
      → (m s.store).0 ≡ ok a
      → Q a t) where
  outcome-After :
      (r : Result A) (s t : ServiceState)
      → (m s.store).0 ≡ r
      → t.store ≡ (m s.store).1
      → Quiet s t
      → P s
      → After Q R r t
  outcome-After (ok a) s t e store q p = saved s t a p q store e
  outcome-After (err x) s t e store q p = failed s t p q

  access-After :
      (fault : Option Error) (s : ServiceState)
      → MethodGrows m
      → P s
      → After Q R (store_access w fault m s).0 (store_access w fault m s).1
  unfolding next_turn
  access-After (some e) s g p =
      failed s _ p (record { same_sent = refl; grows = Grows-refl s.store; still_latched = λ h. h })
  access-After none s g p =
      outcome-After (m s.store).0 s _ refl refl
        (record { same_sent = refl; grows = g.at s.store; still_latched = λ h. h }) p

  -- A store access, from what its method does where it returns.
  pub stored-Triple : MethodGrows m → Triple P (stored w m) Q R
  unfolding stored
  stored-Triple g = record { at = λ s p. access-After (w.store_fault s.turn) s g p }

Unsent-All :
    (i : OrderIntent) (st : Store) (l : List Transmission)
    → IsIndexed st
    → (save_order_intent i st).0 ≡ ok tt
    → All (λ x. IsRecorded st x.command) l
    → All (Unsent i) l
Unsent-All i st [] x e r = tt
Unsent-All i st (y ∷ l) x e r =
    let (new_id, new_fingerprint, new_key) = save_order_intent-new i st e in
    let (own, fingerprint, key) = x.own _ _ r.0.stored in
    (
      (
        λ same. absurd (cc (new_id, r.0.stored, same)),
        λ same. absurd (cc (new_fingerprint, fingerprint, r.0.fingerprint, same)),
        λ same. absurd (cc (new_key, key, r.0.key, same)),
      ),
      Unsent-All i st l x e r.1,
    )

module _ (w : World) (R : Requested) (i : OrderIntent) where
  pub save_order_intent-Triple :
      Triple (IsSafe w R) (stored w (save_order_intent i)) (λ _. HasIntent w R i) (IsSafe w R)
  save_order_intent-Triple =
      stored-Triple w (save_order_intent i) (IsSafe w R) (λ _. HasIntent w R i) (IsSafe w R)
        (λ s t p q. (IsSafe-IsStable w R).at q p)
        (λ s t a p q store e. record {
          safe = (IsSafe-IsStable w R).at q p;
          unsent =
              subst (All (Unsent i)) (sym q.same_sent)
                (Unsent-All i s.store s.sent p.indexed e p.recorded);
          intent =
              ap (λ d. lookup i.intent_id d.order_intents) store
              ∙ save_order_intent-stored i s.store e;
        })
        (save_order_intent-MethodGrows i)

  pub save_command_intent-Triple :
      (c : BrokerCommandIntent)
      → Triple
          (HasIntent w R i)
          (stored w (save_command_intent c))
          (λ _. HasCommand w R i c)
          (IsSafe w R)
  save_command_intent-Triple c =
      stored-Triple w (save_command_intent c) (HasIntent w R i) (λ _. HasCommand w R i c)
        (IsSafe w R) (λ s t p q. ((HasIntent-IsStable w R i).at q p).safe)
        (λ s t a p q store e. record {
          has = (HasIntent-IsStable w R i).at q p;
          command =
              ap (λ d. lookup c.command_intent_id d.command_intents) store
              ∙ save_command_intent-stored c s.store e;
        })
        (save_command_intent-MethodGrows c)

  pub save_order-Triple :
      (c : BrokerCommandIntent) (o : BrokerOrder)
      → o.intent_id ≡ i.intent_id
      → Triple (HasCommand w R i c) (stored w (save_order o)) (λ _. HasOrder w R i c) (IsSafe w R)
  save_order-Triple c o own =
      stored-Triple w (save_order o) (HasCommand w R i c) (λ _. HasOrder w R i c) (IsSafe w R)
        (λ s t p q. ((HasCommand-IsStable w R i c).at q p).has.safe)
        (λ s t a p q store e. record {
          has = (HasCommand-IsStable w R i c).at q p;
          order =
              subst (λ (k : ℕ). is_some (lookup k t.store.orders) ≡ true) own
                (ap (λ d. is_some (lookup o.intent_id d.orders)) store
                  ∙ ap is_some (save_order-stored o s.store e));
        })
        (save_order-MethodGrows o)

  pub persist-Triple :
      (c : BrokerCommandIntent) (o : BrokerOrder) (why : TransitionReason)
      → o.intent_id ≡ i.intent_id
      → Triple (IsSafe w R) (persist w i c o why) (λ _. HasOrder w R i c) (IsSafe w R)
  unfolding persist
  persist-Triple c o why own =
      bind-Triple (λ _. HasIntent w R i) save_order_intent-Triple
        (λ _.
          bind-Triple (λ _. HasCommand w R i c) (save_command_intent-Triple c)
            (λ _.
              bind-Triple (λ _. HasOrder w R i c) (save_order-Triple c o own)
                (λ _.
                  quiet-Triple (HasOrder-IsStable w R i c) (λ s h. h.has.has.safe)
                    (record_step-IsQuiet w i.intent_id OrderState.intent_persisted
                      OrderState.submitting why false))))

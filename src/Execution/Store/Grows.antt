-- ===== src/Execution/Store/Grows.antt =====
-- app/execution/service.py: what the methods of the store keep. Nothing that was made durable is
-- taken back, the indices find every intent, and every recorded transition is an allowed one.
use mathlib.Core.Path.{subst}
use sentry.Prelude.{
  ℕ, ◌≡◌, refl, sym, ap, ◌∙◌, inl, inr, true, none, some, is_some, All, Bool-cases, Option-cases,
  ==_iff, ◌==◌, if◌then◌else◌,
}
use sentry.Prelude.Dict.{Dict, insert, lookup, lookup-insert, lookup-insert_self}
use sentry.Domain.Order.{OrderIntent, BrokerCommandIntent}
use sentry.Execution.StateMachine.{can_transition}
use sentry.Execution.Store.{Store, Method, StateTransitionRecord, with_intent, save_order_intent}

-- A stored intent stands under its own identifier, and both indices lead to it.
pub record IsIndexed (s : Store) : Type 0 where
  pub own :
      (k : ℕ) (i : OrderIntent)
      → lookup k s.order_intents ≡ some i
      → (i.intent_id ≡ k)
        × (lookup i.order_fingerprint s.fingerprints ≡ some k)
        × (lookup i.idempotency_key s.idempotency_keys ≡ some k)

abbrev pub IsAllowed : StateTransitionRecord → Type 0
IsAllowed r = can_transition r.previous r.current r.reconciliation_evidence ≡ true

pub record Grows (s t : Store) : Type 0 where
  pub intents :
      (k : ℕ) (i : OrderIntent)
      → lookup k s.order_intents ≡ some i
      → lookup k t.order_intents ≡ some i
  pub commands :
      (k : ℕ) (c : BrokerCommandIntent)
      → lookup k s.command_intents ≡ some c
      → lookup k t.command_intents ≡ some c
  pub orders : (k : ℕ) → is_some (lookup k s.orders) ≡ true → is_some (lookup k t.orders) ≡ true
  pub indexed : IsIndexed s → IsIndexed t
  pub lawful : All IsAllowed s.transitions → All IsAllowed t.transitions

pub Grows-same :
    {s t : Store}
    → t.order_intents ≡ s.order_intents
    → t.command_intents ≡ s.command_intents
    → t.orders ≡ s.orders
    → t.fingerprints ≡ s.fingerprints
    → t.idempotency_keys ≡ s.idempotency_keys
    → t.transitions ≡ s.transitions
    → Grows s t
Grows-same {s} {t} i c o f k l = record {
  intents = λ n j h. ap (lookup n) i ∙ h;
  commands = λ n j h. ap (lookup n) c ∙ h;
  orders = λ n h. ap (λ d. is_some (lookup n d)) o ∙ h;
  indexed = λ x. record {
    own = λ n j h.
        let (a, b, d) = x.own n j (ap (lookup n) (sym i) ∙ h) in
        (a, ap (lookup j.order_fingerprint) f ∙ b, ap (lookup j.idempotency_key) k ∙ d);
  };
  lawful = λ x. subst (All IsAllowed) (sym l) x;
}

pub Grows-refl : (s : Store) → Grows s s
Grows-refl s = Grows-same refl refl refl refl refl refl

pub Grows-trans : {s t u : Store} → Grows s t → Grows t u → Grows s u
Grows-trans g h = record {
  intents = λ k i e. h.intents k i (g.intents k i e);
  commands = λ k c e. h.commands k c (g.commands k c e);
  orders = λ k e. h.orders k (g.orders k e);
  indexed = λ x. h.indexed (g.indexed x);
  lawful = λ x. h.lawful (g.lawful x);
}

pub record MethodGrows {A : Type 0} (m : Method A) : Type 0 where
  pub at : (s : Store) → Grows s (m s).1

-- A new key hides no other.
pub lookup-insert_new :
    {V : Type 0} (j k : ℕ) (v w : V) (d : Dict V)
    → lookup k d ≡ none
    → lookup j d ≡ some w
    → lookup j (insert k v d) ≡ some w
lookup-insert_new j k v w d new old = elim (Bool-cases (j == k)) [
  | inl same ↦ let e : j ≡ k = (==_iff j k).0 same in cc (e)
  | inr other ↦ rw (lookup-insert j k v d, other) old
]

pub is_some-insert :
    {V : Type 0} (j k : ℕ) (v : V) (d : Dict V)
    → is_some (lookup j d) ≡ true
    → is_some (lookup j (insert k v d)) ≡ true
is_some-insert j k v d old = elim (Bool-cases (j == k)) [
  | inl same ↦ rw (lookup-insert j k v d, same) refl
  | inr other ↦ rw (lookup-insert j k v d, other) old
]

module _ (intent : OrderIntent) (s : Store)
    (new_id : lookup intent.intent_id s.order_intents ≡ none)
    (new_fingerprint : lookup intent.order_fingerprint s.fingerprints ≡ none)
    (new_key : lookup intent.idempotency_key s.idempotency_keys ≡ none) where
  with_intent-IsIndexed : IsIndexed s → IsIndexed (with_intent intent s)
  with_intent-IsIndexed x = record {
    own = λ k i e. elim (Bool-cases (k == intent.intent_id)) [
      | inl same ↦
          let k_is : k ≡ intent.intent_id = (==_iff _ _).0 same in
          let i_is : i ≡ intent =
            cc (e, lookup-insert k intent.intent_id intent s.order_intents, same) in
          (
            cc (i_is, k_is),
            cc (
              i_is,
              k_is,
              lookup-insert_self intent.order_fingerprint intent.intent_id s.fingerprints,
            ),
            cc (
              i_is,
              k_is,
              lookup-insert_self intent.idempotency_key intent.intent_id s.idempotency_keys,
            ),
          )
      | inr other ↦
          let old : lookup k s.order_intents ≡ some i =
            cc (e, lookup-insert k intent.intent_id intent s.order_intents, other) in
          let (a, b, d) = x.own k i old in
          (
            a,
            lookup-insert_new i.order_fingerprint intent.order_fingerprint intent.intent_id k
                s.fingerprints new_fingerprint b,
            lookup-insert_new i.idempotency_key intent.idempotency_key intent.intent_id k
                s.idempotency_keys new_key d,
          )
    ];
  }

  with_intent-Grows : Grows s (with_intent intent s)
  with_intent-Grows = record {
    intents = λ k i e. lookup-insert_new k intent.intent_id intent i s.order_intents new_id e;
    commands = λ k c e. e;
    orders = λ k e. e;
    indexed = with_intent-IsIndexed;
    lawful = λ x. x;
  }

pub save_order_intent-MethodGrows : (i : OrderIntent) → MethodGrows (save_order_intent i)
unfolding save_order_intent
save_order_intent-MethodGrows i = record {
  at = λ s. elim (Option-cases (lookup i.intent_id s.order_intents)) [
    | inr (_, old) ↦ rw (old, if◌then◌else◌) (Grows-refl s)
    | inl new_id ↦ elim (Option-cases (lookup i.order_fingerprint s.fingerprints)) [
      | inr (_, old) ↦ rw (new_id, old, if◌then◌else◌) (Grows-refl s)
      | inl new_fingerprint ↦ elim (Option-cases (lookup i.idempotency_key s.idempotency_keys)) [
        | inr (_, old) ↦ rw (new_id, new_fingerprint, old, if◌then◌else◌) (Grows-refl s)
        | inl new_key ↦
            rw (new_id, new_fingerprint, new_key, if◌then◌else◌)
              (with_intent-Grows i s new_id new_fingerprint new_key)
      ]
    ]
  ];
}

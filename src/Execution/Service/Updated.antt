-- ===== src/Execution/Service/Updated.antt =====
-- app/execution/service.py: an update by the broker that `record_broker_update` accepts.
use sentry.Prelude.{
  ◌≤◌, ◌≡◌, ◌≢◌, ◌⊎◌, refl, sym, ap, ◌∙◌, inl, inr, ⊤, Bool, true, false, Option, none, some, List,
  [], ◌∷◌, arith, Bool-cases, if◌then◌else◌,
}
use sentry.Prelude.Dict.{Dict, lookup}
use sentry.Domain.Enums.{OrderState}
use sentry.Domain.Market.{Uuid, OptionContract, same_contract}
use sentry.Domain.Order.{BrokerOrder, Fill, Position}
use sentry.Execution.Error.{Denial, Error, Result, ok, err}
use sentry.Execution.StateMachine.{transition, can_transition}
use sentry.Execution.Store.{
  Store, TransitionReason, save_order, save_fill, replace_positions, get_order, mixes_environments,
}
use sentry.Execution.Store.Grows.{MethodGrows}
use sentry.Execution.Store.Methods.{
  get_order-MethodGrows, save_order-MethodGrows, save_fill-MethodGrows,
  replace_positions-MethodGrows,
}
use sentry.Execution.Store.Saves.{save_order-stored}
use sentry.Execution.Service.State.{World, ServiceState, Action, stored}
use sentry.Execution.Service.Gates.{record_step, record_allowed}
use sentry.Execution.Service.Reconciliation.{
  update_denial, is_changed, step_if, save_fills, apply_update, with_local, record_broker_update,
}
use sentry.Execution.Service.Rules.{
  Condition, After, Triple, pure-Triple, raise-Triple, bind-Triple, assuming, concluding, with_fact,
  returns,
}
use sentry.Execution.Service.Persisting.{stored-Triple}

-- The update is of the exact local order, takes no fill back, and moves the order as the state
-- machine allows if it moves it or fills it.
pub record IsExactUpdate (w : World) (order local : BrokerOrder) (evidence : Bool) : Type 0 where
  pub environment : order.environment ≡ w.environment
  pub order_id : order.order_id ≡ local.order_id
  pub contract : order.contract ≡ local.contract
  pub side : order.side ≡ local.side
  pub quantity : order.quantity ≡ local.quantity
  pub no_fill_lost : local.filled_quantity ≤ order.filled_quantity
  pub allowed :
      (order.state ≢ local.state) ⊎ (order.filled_quantity ≢ local.filled_quantity)
      → can_transition local.state order.state evidence ≡ true

pub contract_same : (a b : OptionContract) → same_contract a b ≡ true → a ≡ b
contract_same a b h = ground arith

module _ (w : World) (order local : BrokerOrder) (fills : List Fill) (positions : List Position)
    (accepted : update_denial w order local fills positions ≡ none) where
  update-environment : order.environment ≡ w.environment
  unfolding update_denial
  update-environment = ground arith

  update-order_id : order.order_id ≡ local.order_id
  unfolding update_denial
  update-order_id = ground arith

  update-contract : order.contract ≡ local.contract
  unfolding update_denial
  update-contract = contract_same order.contract local.contract (ground arith)

  update-side : order.side ≡ local.side
  unfolding update_denial
  update-side = ground arith

  update-quantity : order.quantity ≡ local.quantity
  unfolding update_denial
  update-quantity = ground arith

  update-no_fill_lost : local.filled_quantity ≤ order.filled_quantity
  unfolding update_denial
  update-no_fill_lost = ground arith

  changed_by :
      (order.state ≢ local.state) ⊎ (order.filled_quantity ≢ local.filled_quantity)
      → is_changed order local ≡ true
  changed_by moved = ground arith

  update-IsExact :
      (evidence : Bool)
      → (is_changed order local ≡ true → can_transition local.state order.state evidence ≡ true)
      → IsExactUpdate w order local evidence
  update-IsExact evidence allowed = record {
    environment = update-environment;
    order_id = update-order_id;
    contract = update-contract;
    side = update-side;
    quantity = update-quantity;
    no_fill_lost = update-no_fill_lost;
    allowed = λ moved. allowed (changed_by moved);
  }

-- Nothing is asked of a state.
abbrev pub Any : Condition
Any s = ⊤

module _ {A : Type 0} (Q : A → Condition) (q : (a : A) (s : ServiceState) → Q a s) where
  always-After : (r : Result A) (s : ServiceState) → After Q Any r s
  always-After (ok a) s = q a s
  always-After (err e) s = tt

  pub always : (m : Action A) → Triple Any m Q Any
  always m = record { at = λ s h. always-After (m s).0 (m s).1 }

module _ (w : World) where
  -- A transition is recorded only if the state machine allows it.
  pub record_step-Triple :
      (id : Uuid) (previous current : OrderState) (why : TransitionReason) (evidence : Bool)
      → Triple Any
          (record_step w id previous current why evidence)
          (λ _ _. can_transition previous current evidence ≡ true)
          Any
  unfolding record_step transition
  record_step-Triple id previous current why evidence =
      elim (Bool-cases (can_transition previous current evidence)) [
        | inl allowed ↦
            always (λ _ _. can_transition previous current evidence ≡ true) (λ _ _. allowed) _
        | inr refused ↦
            rw (refused, if◌then◌else◌, record_allowed)
              (raise-Triple Error.invalid_transition (λ s h. tt))
      ]

save_fill-orders : (f : Fill) (st : Store) → (save_fill f st).1.orders ≡ st.orders
unfolding save_fill
save_fill-orders f st = ground arith

replace_positions-orders :
    (marker : List Position → Uuid) (l : List Position) (st : Store)
    → (replace_positions marker l st).1.orders ≡ st.orders
unfolding replace_positions
replace_positions-orders marker l st = elim (Bool-cases (mixes_environments l)) [
  | inl mixed ↦ rw (mixed, if◌then◌else◌) refl
  | inr same ↦ rw (same, if◌then◌else◌) refl
]

module _ (w : World) (order : BrokerOrder) where
  pub save_order-Saved :
      Triple Any
        (stored w (save_order order))
        (λ _ s. lookup order.intent_id s.store.orders ≡ some order)
        Any
  save_order-Saved =
      stored-Triple w (save_order order) Any
        (λ _ s. lookup order.intent_id s.store.orders ≡ some order) Any (λ s t p q. tt)
        (λ s t a p q store e.
          ap (λ st. lookup order.intent_id st.orders) store ∙ save_order-stored order s.store e)
        (save_order-MethodGrows order)

  abbrev pub IsSaved : Condition
  IsSaved s = lookup order.intent_id s.store.orders ≡ some order

  pub keeps_IsSaved :
      (m : Store → Result ⊤ × Store)
      → MethodGrows m
      → ((st : Store) → (m st).1.orders ≡ st.orders)
      → Triple IsSaved (stored w m) (λ _. IsSaved) Any
  keeps_IsSaved m grows same =
      stored-Triple w m IsSaved (λ _. IsSaved) Any (λ s t p q. tt)
        (λ s t a p q store e.
          ap (λ st. lookup order.intent_id st.orders) store
          ∙ ap (lookup order.intent_id) (same s.store)
          ∙ p)
        grows

  save_fills-Saved : (fills : List Fill) → Triple IsSaved (save_fills w fills) (λ _. IsSaved) Any
  unfolding save_fills
  save_fills-Saved [] = pure-Triple tt (λ s h. h)
  save_fills-Saved (f ∷ fills) =
      bind-Triple (λ _. IsSaved) (keeps_IsSaved _ (save_fill-MethodGrows f) (save_fill-orders f))
        (λ _. save_fills-Saved fills)

  step_if-Allowed :
      (changed : Bool) (local : BrokerOrder) (evidence : Bool)
      → Triple Any
          (step_if w changed order local evidence)
          (λ _ _. changed ≡ true → can_transition local.state order.state evidence ≡ true)
          Any
  step_if-Allowed true local evidence = concluding (λ _ s h _. h) (record_step-Triple w _ _ _ _ _)
  step_if-Allowed false local evidence = pure-Triple tt (λ s h no. cc)

  module _ (fills : List Fill) (positions : List Position) (evidence : Bool) where
    apply_update-Exact :
        (local : BrokerOrder) (denial : Option Denial)
        → denial ≡ update_denial w order local fills positions
        → Triple Any
            (apply_update w order fills positions evidence local denial)
            (λ _ s. IsExactUpdate w order local evidence × IsSaved s)
            Any
    apply_update-Exact local (some why) e = raise-Triple _ (λ s h. tt)
    apply_update-Exact local none e =
        bind-Triple _ (step_if-Allowed (is_changed order local) local evidence) (λ _.
          assuming (λ s h. (tt, h))
            (with_fact {P = Any} λ allowed.
              bind-Triple (λ _. IsSaved) save_order-Saved
                (λ _.
                  bind-Triple (λ _. IsSaved) (save_fills-Saved fills)
                    (λ _.
                      concluding
                        (λ _ s h. (
                          update-IsExact w order local fills positions (sym e) evidence allowed,
                          h,
                        ))
                        (keeps_IsSaved _
                          (replace_positions-MethodGrows w.positions_marker positions)
                          (replace_positions-orders w.positions_marker positions))))))

    with_local-Exact :
        (found : Option BrokerOrder) (d : Dict BrokerOrder)
        → found ≡ lookup order.intent_id d
        → Triple Any
            (with_local w order fills positions evidence found)
            (λ _ s.
              ((local : BrokerOrder) × (lookup order.intent_id d ≡ some local)
                × IsExactUpdate w order local evidence)
              × IsSaved s)
            Any
    with_local-Exact none d e = raise-Triple _ (λ s h. tt)
    with_local-Exact (some local) d e =
        concluding (λ _ s h. ((local, sym e, h.0), h.1))
          (apply_update-Exact local (update_denial w order local fills positions) refl)

    -- `get_order` finds what the store has.
    found-Triple :
        (d : Dict BrokerOrder)
        → Triple
            (λ s. s.store.orders ≡ d)
            (stored w (get_order order.intent_id))
            (λ found s. Any s × (found ≡ lookup order.intent_id d))
            Any
    unfolding get_order
    found-Triple d =
        stored-Triple w (get_order order.intent_id) (λ s. s.store.orders ≡ d)
          (λ found s. Any s × (found ≡ lookup order.intent_id d)) Any (λ s t p q. tt)
          (λ s t found p q store e. (tt, cc (e, p))) (get_order-MethodGrows order.intent_id)

    update-Triple :
        (d : Dict BrokerOrder)
        → Triple
            (λ s. s.store.orders ≡ d)
            (record_broker_update w order fills positions evidence)
            (λ _ s.
              ((local : BrokerOrder) × (lookup order.intent_id d ≡ some local)
                × IsExactUpdate w order local evidence)
              × IsSaved s)
            Any
    unfolding record_broker_update
    update-Triple d =
        bind-Triple _ (found-Triple d) (λ found. with_fact λ e. with_local-Exact found d e)

-- An update that `record_broker_update` accepts is of an order that the store had under its intent,
-- and the exact one: the same environment as the service, the same identifier, contract, side and
-- quantity, no fill taken back, and any change of its state or of what is filled a transition that
-- the state machine allows with the evidence given. The store then has the order as it was given.
pub record_broker_update-exact :
    (w : World) (order : BrokerOrder) (fills : List Fill) (positions : List Position)
    (evidence : Bool) (s t : ServiceState)
    → record_broker_update w order fills positions evidence s ≡ (ok tt, t)
    → ((local : BrokerOrder) × (lookup order.intent_id s.store.orders ≡ some local)
        × IsExactUpdate w order local evidence)
      × (lookup order.intent_id t.store.orders ≡ some order)
record_broker_update-exact w order fills positions evidence s t e =
    returns (update-Triple w order fills positions evidence s.store.orders) s refl tt t e

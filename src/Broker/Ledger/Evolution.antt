-- ===== src/Broker/Ledger/Evolution.antt =====
-- app/broker/shadow_ledger.py against app/execution/state_machine.py: how an order of the ledger
-- changes over a history of calls.
pub mod At
pub mod Quotes
pub mod Orders
pub mod Expiry
pub mod Runs
use sentry.Prelude.{◌≤◌, ◌≡◌, refl, ◌∙◌, ◌⊎◌, Bool, true, false, some, List, [], ◌∷◌, ◌++◌, arith}
use sentry.Domain.Enums.{OrderState}
use sentry.Domain.Order.{BrokerOrder}
use sentry.Execution.StateMachine.{can_transition}
use sentry.Execution.Lifecycle.{walk}
use sentry.Broker.Ledger.State.{is_open}
use sentry.Broker.Ledger.Fills.{Request, filled_order}

-- Requests of these targets, none of them with reconciliation evidence.
abbrev pub unevidenced : List OrderState → List (OrderState × Bool)
unevidenced [] = []
unevidenced (t ∷ ts) = (t, false) ∷ unevidenced ts

walk_append :
    (s t u : OrderState) (xs ys : List OrderState)
    → walk s (unevidenced xs) ≡ some t
    → walk t (unevidenced ys) ≡ some u
    → walk s (unevidenced (xs ++ ys)) ≡ some u
unfolding walk
walk_append s t u [] ys h k = ground arith
walk_append s t u (r ∷ xs) ys h k = ground (arith, walk_append r t u xs ys)

-- A later version of one order: the same exact terms, no fill undone, and a state that the order
-- state machine reaches by transitions without reconciliation evidence.
pub record IsLater (o o' : BrokerOrder) : Type 0 where
  pub same_id : o'.order_id ≡ o.order_id
  pub same_intent : o'.intent_id ≡ o.intent_id
  pub same_contract : o'.contract ≡ o.contract
  pub same_side : o'.side ≡ o.side
  pub same_quantity : o'.quantity ≡ o.quantity
  pub same_limit : o'.limit_price ≡ o.limit_price
  pub filled_grows : o.filled_quantity ≤ o'.filled_quantity
  pub path : (xs : List OrderState) × (walk o.state (unevidenced xs) ≡ some o'.state)

pub IsLater-refl : (o : BrokerOrder) → IsLater o o
unfolding walk
IsLater-refl o = record {
  same_id = refl;
  same_intent = refl;
  same_contract = refl;
  same_side = refl;
  same_quantity = refl;
  same_limit = refl;
  filled_grows = omega arith;
  path = ([], refl);
}

pub IsLater-trans : (a b c : BrokerOrder) → IsLater a b → IsLater b c → IsLater a c
IsLater-trans a b c h k =
    let (xs, p) = h.path in
    let (ys, q) = k.path in
    record {
      same_id = k.same_id ∙ h.same_id;
      same_intent = k.same_intent ∙ h.same_intent;
      same_contract = k.same_contract ∙ h.same_contract;
      same_side = k.same_side ∙ h.same_side;
      same_quantity = k.same_quantity ∙ h.same_quantity;
      same_limit = k.same_limit ∙ h.same_limit;
      filled_grows = omega (arith, h.filled_grows, k.filled_grows);
      path = (xs ++ ys, walk_append a.state b.state c.state xs ys p q);
    }

one_step : (s t : OrderState) → can_transition s t false ≡ true → walk s ((t, false) ∷ []) ≡ some t
unfolding walk
one_step s t h = rw h

-- The three changes that the ledger makes to an open order.
pub filled_order-IsLater :
    (o : BrokerOrder) (r : Request) → is_open o.state ≡ true → IsLater o (filled_order o r)
unfolding filled_order
filled_order-IsLater o r h = record {
  same_id = refl;
  same_intent = refl;
  same_contract = refl;
  same_side = refl;
  same_quantity = refl;
  same_limit = refl;
  filled_grows = omega arith;
  path = (_ ∷ [], one_step o.state _ (unfold can_transition in ground arith));
}

pub ended_order-IsLater :
    (o : BrokerOrder) (t : OrderState)
    → is_open o.state ≡ true
    → (t ≡ OrderState.canceled) ⊎ (t ≡ OrderState.expired)
    → IsLater o (record o { state = t })
ended_order-IsLater o t h e = record {
  same_id = refl;
  same_intent = refl;
  same_contract = refl;
  same_side = refl;
  same_quantity = refl;
  same_limit = refl;
  filled_grows = omega arith;
  path = (t ∷ [], one_step o.state t (unfold can_transition in ground arith));
}

-- ===== src/Broker/Ledger/Evolution/Runs.antt =====
-- app/broker/shadow_ledger.py: an order over any history of calls.
use sentry.Prelude.{ℕ, ◌≡◌, ◌≢◌, Bool, true, some, List, [], ◌∷◌, arith, All}
use sentry.Prelude.Int.{ℤ}
use sentry.Prelude.Dict.{lookup}
use sentry.Domain.Enums.{OrderState}
use sentry.Domain.Market.{Label}
use sentry.Execution.StateMachine.{is_terminal}
use sentry.Execution.Lifecycle.{walk, is_terminal-iff-final}
use sentry.Broker.Ledger.State.{ShadowLedger, LedgerOrder, Context}
use sentry.Broker.Ledger.Orders.{deposit, review}
use sentry.Broker.Ledger.History.{Call, apply, run}
use sentry.Broker.Ledger.Evolution.{IsLater, unevidenced}
use sentry.Broker.Ledger.Evolution.At.{EvolvesAt, EvolvesAt-refl, EvolvesAt-trans}
use sentry.Broker.Ledger.Evolution.Quotes.{observe_quote-EvolvesAt}
use sentry.Broker.Ledger.Evolution.Orders.{cancel-EvolvesAt, submit-EvolvesAt}
use sentry.Broker.Ledger.Evolution.Expiry.{expire-EvolvesAt}

-- The call does not submit the order that stands under `k` once more.
abbrev pub SparesKey : ℕ → Call → Type 0
SparesKey k (Call.submit_call x command contract) = k ≢ x.order_id command.order_intent_id
SparesKey k _ = Unit

deposit-orders :
    (x : Context) (amount : ℤ) (reference : Label) (l : ShadowLedger)
    → (deposit x amount reference l).1.orders ≡ l.orders
unfolding deposit
deposit-orders x amount reference l = ground arith

module _ (k : ℕ) where
  apply-EvolvesAt :
      (c : Call) (l : ShadowLedger) → SparesKey k c → EvolvesAt k l.orders (apply c l).orders
  unfolding apply review
  apply-EvolvesAt (Call.submit_call x command contract) l s =
      submit-EvolvesAt k x command contract l s
  apply-EvolvesAt (Call.quote_call x q) l s = observe_quote-EvolvesAt k x q l
  apply-EvolvesAt (Call.cancel_call x command target) l s = cancel-EvolvesAt k x command target l
  apply-EvolvesAt (Call.expire_call x on_date policy settlements) l s =
      expire-EvolvesAt k x on_date policy settlements l
  apply-EvolvesAt (Call.review_call x p) l s = EvolvesAt-refl k l.orders
  apply-EvolvesAt (Call.deposit_call x amount reference) l s =
      rw (deposit-orders x amount reference l) (EvolvesAt-refl k l.orders)

  run-EvolvesAt :
      (cs : List Call) (l : ShadowLedger)
      → All (SparesKey k) cs
      → EvolvesAt k l.orders (run cs l).orders
  unfolding run
  run-EvolvesAt [] l s = EvolvesAt-refl k l.orders
  run-EvolvesAt (c ∷ cs) l s =
      EvolvesAt-trans k l.orders (apply c l).orders (run cs (apply c l)).orders
        (apply-EvolvesAt c l s.0) (run-EvolvesAt cs (apply c l) s.1)

-- An order that stands under a key still stands under it after any history of calls that does not
-- submit the same order intent again, in a later version: the same identifiers, contract, side,
-- quantity and limit, at least as much filled, and a state that the order state machine reaches
-- from the old one by transitions without reconciliation evidence.
pub run-IsLater :
    (k : ℕ) (item : LedgerOrder) (cs : List Call) (l : ShadowLedger)
    → lookup k l.orders ≡ some item
    → All (SparesKey k) cs
    → (item' : LedgerOrder) × (lookup k (run cs l).orders ≡ some item')
      × IsLater item.published item'.published
run-IsLater k item cs l found spared = run-EvolvesAt k cs l spared item found

walk_terminal :
    (s t : OrderState) (xs : List (OrderState × Bool))
    → is_terminal s ≡ true
    → walk s xs ≡ some t
    → t ≡ s
unfolding walk
walk_terminal s t [] h w = ground arith
walk_terminal s t ((u, e) ∷ rest) h w = ground (arith, (is_terminal-iff-final s).0 h u e)

-- An order in a terminal state keeps that state through any history of calls that does not submit
-- the same order intent again.
pub run-keeps_terminal :
    (k : ℕ) (item : LedgerOrder) (cs : List Call) (l : ShadowLedger)
    → lookup k l.orders ≡ some item
    → All (SparesKey k) cs
    → is_terminal item.published.state ≡ true
    → (item' : LedgerOrder) × (lookup k (run cs l).orders ≡ some item')
      × (item'.published.state ≡ item.published.state)
run-keeps_terminal k item cs l found spared ended =
    let (item', found', later) = run-IsLater k item cs l found spared in
    let (xs, walked) = later.path in
    (
      item',
      found',
      walk_terminal item.published.state item'.published.state (unevidenced xs) ended walked,
    )

-- ===== src/Broker/Ledger/Evolution/Quotes.antt =====
-- app/broker/shadow_ledger.py: `observe_quote` takes an order to a later version of itself.
use sentry.Prelude.{
  ℕ, ◌-◌, ◌≡◌, inl, inr, ◌⊎◌, true, some, List, [], ◌∷◌, ◌++◌, arith, Bool-cases, Option-cases, ltb,
}
use sentry.Prelude.Dict.{lookup, keys}
use sentry.Domain.Market.{OptionQuote}
use sentry.Broker.FillModel.{should_fill}
use sentry.Broker.Ledger.State.{ShadowLedger, LedgerOrder, Context, is_open, pure, ◌>>=◌}
use sentry.Broker.Ledger.Keeps.{>>=-keeps}
use sentry.Broker.Ledger.Holdings.{remaining_quantity}
use sentry.Broker.Ledger.Fills.{Request, fill_error, apply_fill, publish}
use sentry.Broker.Ledger.Quotes.{
  fill_order, fill_at, fill_loop, accept_quote, observe_quote, request_of, is_eligible,
}
use sentry.Broker.Ledger.Invariant.Filling.{orders-settle}
use sentry.Broker.Ledger.Evolution.{filled_order-IsLater}
use sentry.Broker.Ledger.Evolution.At.{EvolvesAt, EvolvesAt-refl, EvolvesAt-trans, EvolvesAt-insert}

module _ (k : ℕ) (x : Context) (q : OptionQuote) where
  apply_fill-EvolvesAt :
      (key : ℕ) (item : LedgerOrder) (r : Request) (l : ShadowLedger)
      → lookup key l.orders ≡ some item
      → is_open item.published.state ≡ true
      → EvolvesAt k l.orders (apply_fill x key item q r l).1.orders
  unfolding apply_fill publish
  apply_fill-EvolvesAt key item r l found opened =
      elim (Option-cases (fill_error l item.published r)) [
        | inl e ↦
            rw (e, apply_fill)
              (rw orders-settle (
                EvolvesAt-insert k key item _ l.orders found
                  (filled_order-IsLater item.published r opened)))
        | inr (error, e) ↦ rw (e, apply_fill) (EvolvesAt-refl k l.orders)
      ]

  fill_order-EvolvesAt :
      (key : ℕ) (item : LedgerOrder) (l : ShadowLedger)
      → lookup key l.orders ≡ some item
      → EvolvesAt k l.orders (fill_order x q key item l).1.orders
  unfolding fill_order
  fill_order-EvolvesAt key item l found =
      let d = x.fill_model.evaluate item.published q (remaining_quantity item.published) in
      elim (Bool-cases (is_eligible q item.published)) [
        | inl e ↦ elim (Bool-cases (should_fill d)) [
          | inl s ↦
              let after = apply_fill-EvolvesAt key item (request_of d) l found (ground arith) in
              rw (e, s)
                (>>=-keeps (λ m. EvolvesAt k l.orders m.orders)
                  (apply_fill x key item q (request_of d)) (λ fill. pure (fill ∷ [])) l after
                  (λ fill _. after))
          | inr s ↦ rw (e, s) (EvolvesAt-refl k l.orders)
        ]
        | inr e ↦ rw e (EvolvesAt-refl k l.orders)
      ]

  fill_at-EvolvesAt :
      (key : ℕ) (l : ShadowLedger) → EvolvesAt k l.orders (fill_at x q key l).1.orders
  unfolding fill_at
  fill_at-EvolvesAt key l = elim (Option-cases (lookup key l.orders)) [
    | inl e ↦ rw (e, fill_at) (EvolvesAt-refl k l.orders)
    | inr (item, e) ↦ rw (e, fill_at) (fill_order-EvolvesAt key item l e)
  ]

  fill_loop-EvolvesAt :
      (ids : List ℕ) (l : ShadowLedger) → EvolvesAt k l.orders (fill_loop x q ids l).1.orders
  unfolding fill_loop
  fill_loop-EvolvesAt [] l = EvolvesAt-refl k l.orders
  fill_loop-EvolvesAt (key ∷ rest) l =
      let first = fill_at-EvolvesAt key l in
      let l' = (fill_at x q key l).1 in
      >>=-keeps (λ m. EvolvesAt k l.orders m.orders) (fill_at x q key)
        (λ fills. fill_loop x q rest >>= λ more. pure (fills ++ more)) l first
        λ fills _.
          let later =
            EvolvesAt-trans k l.orders l'.orders (fill_loop x q rest l').1.orders first
              (fill_loop-EvolvesAt rest l') in
          >>=-keeps (λ m. EvolvesAt k l.orders m.orders) (fill_loop x q rest)
            (λ more. pure (fills ++ more)) l' later (λ more _. later)

  accept_quote-EvolvesAt : (l : ShadowLedger) → EvolvesAt k l.orders (accept_quote x q l).1.orders
  unfolding accept_quote
  accept_quote-EvolvesAt l = elim (Bool-cases (ltb l.max_quote_age (x.now - q.observed_at))) [
    | inl stale ↦ rw stale (EvolvesAt-refl k l.orders)
    | inr fresh ↦ rw fresh (fill_loop-EvolvesAt (keys l.orders) _)
  ]

  observe_quote-state :
      (l : ShadowLedger)
      → ((observe_quote x q l).1 ≡ l) ⊎ ((observe_quote x q l).1 ≡ (accept_quote x q l).1)
  unfolding observe_quote
  observe_quote-state l = ground arith

  pub observe_quote-EvolvesAt :
      (l : ShadowLedger) → EvolvesAt k l.orders (observe_quote x q l).1.orders
  observe_quote-EvolvesAt l = elim (observe_quote-state l) [
    | inl e ↦ rw e (EvolvesAt-refl k l.orders)
    | inr e ↦ rw e (accept_quote-EvolvesAt l)
  ]

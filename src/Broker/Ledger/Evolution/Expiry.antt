-- ===== src/Broker/Ledger/Evolution/Expiry.antt =====
-- app/broker/shadow_ledger.py: `expire` takes an order to a later version of itself.
use sentry.Prelude.{
  ℕ, ◌≡◌, refl, ◌∙◌, inl, inr, true, Option, [], ◌∷◌, arith, Bool-cases, ◌==◌, ltb,
}
use sentry.Prelude.Int.{ℤ, pos}
use sentry.Prelude.Dict.{Dict, lookup}
use sentry.Domain.Enums.{OrderState}
use sentry.Domain.Market.{Label, Day}
use sentry.Domain.Order.{Position}
use sentry.Broker.Ledger.State.{ShadowLedger, LedgerOrder, Context}
use sentry.Broker.Ledger.Keeps.{>>=-keeps}
use sentry.Broker.Ledger.Holdings.{get_or}
use sentry.Broker.Ledger.Expiry.{
  ExpirationPolicy, Totals, is_due, expired_order, expire_orders, close_position, expire_position,
  expire_positions, expire_due, expire, no_totals,
}
use sentry.Broker.Ledger.Evolution.{IsLater, IsLater-refl, ended_order-IsLater}
use sentry.Broker.Ledger.Evolution.At.{EvolvesAt, EvolvesAt-refl}

module _ (k : ℕ) where
  expired_order-IsLater :
      (x : Context) (day : Day) (item : LedgerOrder)
      → is_due x day item ≡ true
      → IsLater item.published (expired_order item).published
  unfolding is_due
  expired_order-IsLater x day item d =
      ended_order-IsLater item.published OrderState.expired (ground arith) (inr refl)

  expire_orders-EvolvesAt :
      (x : Context) (day : Day) (d : Dict LedgerOrder) → EvolvesAt k d (expire_orders x day d)
  unfolding expire_orders
  expire_orders-EvolvesAt x day [] item e = absurd (cc e)
  expire_orders-EvolvesAt x day ((key, first) ∷ rest) item e = elim (Bool-cases (k == key)) [
    | inl same ↦
        let one : item ≡ first = ground arith in
        elim (Bool-cases (is_due x day first)) [
          | inl due ↦ (
            expired_order first,
            rw (due, same) refl,
            rw one (expired_order-IsLater x day first due),
          )
          | inr not_due ↦ (first, rw (not_due, same) refl, rw one (IsLater-refl first.published))
        ]
    | inr other ↦ rw other (expire_orders-EvolvesAt x day rest item (rw other at e))
  ]

  expire_position-orders :
      (day : Day) (policy : ExpirationPolicy) (i : Label) (p : Position) (given : ℤ) (t : Totals)
      (l : ShadowLedger)
      → (expire_position day policy i p given t l).1.orders ≡ l.orders
  unfolding expire_position close_position
  expire_position-orders day policy i p given t l = ground arith

  expire_positions-orders :
      (day : Day) (policy : ExpirationPolicy) (settlements : Dict ℤ) (ps : Dict Position)
      (t : Totals) (l : ShadowLedger)
      → (expire_positions day policy settlements ps t l).1.orders ≡ l.orders
  unfolding expire_positions
  expire_positions-orders day policy settlements [] t l = refl
  expire_positions-orders day policy settlements ((i, p) ∷ rest) t l =
      let given = get_or (lookup i settlements) (pos 0) in
      let first = expire_position-orders day policy i p given t l in
      >>=-keeps (λ m. m.orders ≡ l.orders) (expire_position day policy i p given t)
        (expire_positions day policy settlements rest) l first
        (λ t' _. expire_positions-orders day policy settlements rest t' _ ∙ first)

  expire_due-orders :
      (x : Context) (day : Day) (policy : ExpirationPolicy) (settlements : Dict ℤ)
      (l : ShadowLedger)
      → (expire_due x day policy settlements l).1.orders ≡ expire_orders x day l.orders
  unfolding expire_due
  expire_due-orders x day policy settlements l = ground (
    arith,
    expire_positions-orders day policy settlements l.positions no_totals
        (record l { orders = expire_orders x day l.orders }),
  )

  pub expire-EvolvesAt :
      (x : Context) (on_date : Option Day) (policy : ExpirationPolicy) (settlements : Dict ℤ)
      (l : ShadowLedger)
      → EvolvesAt k l.orders (expire x on_date policy settlements l).1.orders
  unfolding expire
  expire-EvolvesAt x on_date policy settlements l =
      let day = get_or on_date (x.market_date x.now) in
      elim (Bool-cases (ltb (x.market_date x.now) day)) [
        | inl later ↦ rw later (EvolvesAt-refl k l.orders)
        | inr due ↦
            rw (due, expire_due-orders x day policy settlements l)
              (expire_orders-EvolvesAt x day l.orders)
      ]

-- ===== src/Broker/Ledger/NoFault.antt =====
-- app/broker/shadow_ledger.py with app/broker/fill_models.py: on a valid ledger and a lawful fill
-- model the checks of `_apply_fill` never fire.
use sentry.Prelude.{
  ℕ, ◌-◌, ◌*◌, ◌≤◌, ◌<◌, ◌≡◌, refl, inl, inr, Bool, true, false, none, some, List, [], ◌∷◌, arith,
  Bool-cases, Option-cases, ltb,
}
use sentry.Prelude.Int.{pos, ◌≤ℤ◌}
use sentry.Prelude.Dict.{lookup, keys, AllEntries-lookup, value-le-sum_values}
use sentry.Domain.Enums.{is_buy}
use sentry.Domain.Market.{Label, Day, OptionQuote}
use sentry.Domain.Order.{BrokerOrder}
use sentry.Broker.FillModel.{FillDecision, should_fill}
use sentry.Broker.FillModel.Lawful.{IsLawful, IsLawfulModel}
use sentry.Broker.Ledger.State.{ShadowLedger, LedgerOrder, Context, Error, Result, ok, err, is_open}
use sentry.Broker.Ledger.Holdings.{
  reserved_buying_power, reserved_quantity, owned_quantity, position_quantity, buy_reserve,
  sell_reserve, remaining_quantity,
}
use sentry.Broker.Ledger.Fills.{Request, fill_error, apply_fill, notional}
use sentry.Broker.Ledger.Quotes.{
  fill_order, fill_at, fill_loop, accept_quote, observe_quote, request_of, is_eligible,
}
use sentry.Broker.Ledger.Invariant.{IsValid, IsValidEntry}
use sentry.Broker.Ledger.Invariant.Reserves.{notional-le}
use sentry.Broker.Ledger.Invariant.Observing.{fill_at-IsValid, seen, seen-IsValid}

-- A lawful request against an open order.
abbrev IsLawfulRequest : BrokerOrder → Request → Type 0
IsLawfulRequest o r =
    (0 < r.quantity)
    × (r.quantity ≤ remaining_quantity o)
    × (0 < r.price)
    × (is_buy o.side ≡ true → r.price ≤ o.limit_price)
    × (is_buy o.side ≡ false → o.limit_price ≤ r.price)

request_of-IsLawful :
    (o : BrokerOrder) (d : FillDecision)
    → IsLawful o (remaining_quantity o) d
    → should_fill d ≡ true
    → IsLawfulRequest o (request_of d)
request_of-IsLawful o d h s = ground arith

module _ (expiry : Label → Day) (l : ShadowLedger) (valid : IsValid expiry l) (key : ℕ)
    (item : LedgerOrder) (found : lookup key l.orders ≡ some item)
    (opened : is_open item.published.state ≡ true) (r : Request)
    (lawful : IsLawfulRequest item.published r) where
  -- Cash covers a lawful buy, since the order's reserve does.
  notional-covered : is_buy item.published.side ≡ true → pos (notional item.published r) ≤ℤ l.cash
  unfolding reserved_buying_power buy_reserve
  notional-covered b =
      let o = item.published in
      let reserve : buy_reserve o ≡ remaining_quantity o * o.limit_price * o.contract.multiplier =
        ground arith in
      omega (
        arith,
        valid.covered,
        reserve,
        value-le-sum_values (λ e. buy_reserve e.published) key item l.orders found,
        notional-le r.price r.quantity o.limit_price o.contract.multiplier (lawful.3 b),
        reserve_mono r.quantity (remaining_quantity o) o.limit_price o.contract.multiplier lawful.1,
      )
    where
      reserve_mono : (q rem limit m : ℕ) → q ≤ rem → q * limit * m ≤ rem * limit * m
      reserve_mono q rem limit m h = grind arith

  sale-covered :
      is_buy item.published.side ≡ false
      → r.quantity ≤ position_quantity (lookup item.published.contract.instrument_id l.positions)
  unfolding reserved_quantity sell_reserve owned_quantity
  sale-covered b =
      let i = item.published.contract.instrument_id in
      ground (
        arith,
        valid.held i,
        value-le-sum_values (λ e. sell_reserve i e.published) key item l.orders found,
        lawful,
      )

  no_fill_error : fill_error l item.published r ≡ none
  unfolding fill_error
  no_fill_error = ground (arith, lawful, notional-covered, sale-covered)

abbrev is_ok : {A : Type 0} → Result A → Bool
is_ok (ok a) = true
is_ok (err e) = false

-- The errors that blame the quote, `DataInvalidError`, and not the ledger.
abbrev pub is_data_invalid : Error → Bool
is_data_invalid Error.future_quote = true
is_data_invalid Error.quote_reused = true
is_data_invalid Error.quote_out_of_order = true
is_data_invalid Error.contract_reused = true
is_data_invalid _ = false

apply_fill-is_ok :
    (x : Context) (key : ℕ) (item : LedgerOrder) (q : OptionQuote) (r : Request) (l : ShadowLedger)
    → fill_error l item.published r ≡ none
    → is_ok (apply_fill x key item q r l).0 ≡ true
unfolding apply_fill
apply_fill-is_ok x key item q r l e = ground arith

module _ (expiry : Label → Day) (x : Context) (q : OptionQuote)
    (lawful : IsLawfulModel x.fill_model) where
  fill_order-is_ok :
      (key : ℕ) (item : LedgerOrder) (l : ShadowLedger)
      → lookup key l.orders ≡ some item
      → IsValid expiry l
      → is_ok (fill_order x q key item l).0 ≡ true
  unfolding fill_order
  fill_order-is_ok key item l found valid =
      let o = item.published in
      let d = x.fill_model.evaluate o q (remaining_quantity o) in
      let entry =
        AllEntries-lookup (IsValidEntry expiry) key item l.orders valid.orders_valid found in
      elim (Bool-cases (is_eligible q o)) [
        | inl e ↦ elim (Bool-cases (should_fill d)) [
          | inl s ↦
              let fits = request_of-IsLawful o d (lawful o q (remaining_quantity o) entry.3) s in
              let done =
                apply_fill-is_ok x key item q (request_of d) l (
                  no_fill_error expiry l valid key item found (ground arith) (request_of d) fits) in
              rw (e, s) (ground arith)
          | inr s ↦ rw (e, s) refl
        ]
        | inr e ↦ rw e refl
      ]

  fill_at-is_ok :
      (key : ℕ) (l : ShadowLedger) → IsValid expiry l → is_ok (fill_at x q key l).0 ≡ true
  unfolding fill_at
  fill_at-is_ok key l valid = elim (Option-cases (lookup key l.orders)) [
    | inl e ↦ rw (e, fill_at) refl
    | inr (item, e) ↦ rw (e, fill_at) (fill_order-is_ok key item l e valid)
  ]

  fill_loop-is_ok :
      (ids : List ℕ) (l : ShadowLedger) → IsValid expiry l → is_ok (fill_loop x q ids l).0 ≡ true
  unfolding fill_loop
  fill_loop-is_ok [] l valid = refl
  fill_loop-is_ok (key ∷ rest) l valid = ground (
    arith,
    fill_at-is_ok key l valid,
    fill_loop-is_ok rest (fill_at x q key l).1 (fill_at-IsValid expiry x q key l valid),
  )

  accept_quote-is_ok : (l : ShadowLedger) → IsValid expiry l → is_ok (accept_quote x q l).0 ≡ true
  unfolding accept_quote
  accept_quote-is_ok l valid = elim (Bool-cases (ltb l.max_quote_age (x.now - q.observed_at))) [
    | inl stale ↦ rw stale refl
    | inr fresh ↦
        rw fresh
          (fill_loop-is_ok (keys l.orders) (seen expiry x q l) (seen-IsValid expiry x q l valid))
  ]

-- On a valid ledger, with a fill model whose decisions are lawful, a quote is either taken in, or
-- refused for a fault of the quote itself: no fill overdraws cash, oversells a position, exceeds its
-- order or passes its limit.
pub observe_quote-no_fault :
    (expiry : Label → Day) (x : Context) (q : OptionQuote) (l : ShadowLedger) {e : Error}
    → IsLawfulModel x.fill_model
    → IsValid expiry l
    → (observe_quote x q l).0 ≡ err e
    → is_data_invalid e ≡ true
unfolding observe_quote
observe_quote-no_fault expiry x q l lawful valid h =
    grind (arith, accept_quote-is_ok expiry x q lawful l valid)

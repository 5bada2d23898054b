-- ===== src/Broker/Ledger/Invariant/Apply.antt =====
-- app/broker/shadow_ledger.py: `_apply_fill` keeps the invariant.
use sentry.Prelude.{
  ℕ, ◌+◌, ◌-◌, ◌≤◌, ◌≡◌, ap, ◌≢◌, ◌⊎◌, inl, inr, true, false, some, arith, Bool-cases, Option-cases,
  ◌==◌, ==_iff,
}
use sentry.Prelude.Int.{pos, ◌≤ℤ◌, pos_part, neg_part, +ℤ_parts, -ℤ_parts}
use sentry.Prelude.Dict.{
  lookup, insert, AllEntries, AllEntries-insert, AllEntries-erase, AllEntries-lookup,
  sum_values-insert,
}
use sentry.Domain.Enums.{is_buy}
use sentry.Domain.Market.{Label, Day, OptionQuote}
use sentry.Domain.Order.{Position}
use sentry.Broker.Ledger.State.{ShadowLedger, LedgerOrder, Context, is_open}
use sentry.Broker.Ledger.Holdings.{
  reserved_buying_power, reserved_quantity, owned_quantity, buy_reserve, sell_reserve,
  apply_entry_position,
}
use sentry.Broker.Ledger.Fills.{
  Request, fill_error, filled_order, notional, settle, settle_buy, settle_sell, publish, apply_fill,
}
use sentry.Broker.Ledger.Invariant.{IsValid, IsValidEntry, IsValidOrder, IsValidPosition}
use sentry.Broker.Ledger.Invariant.Reserves.{buy_reserve-filled, sell_reserve-filled, notional-le}
use sentry.Broker.Ledger.Invariant.Filling.{
  Passed, fill_error-Passed, mark_position-IsValid, orders-settle, cash-settle_buy,
  cash-settle_sell, owned-settle_buy, owned-settle_sell,
}

module _ (expiry : Label → Day) (x : Context) (key : ℕ) (item : LedgerOrder) (q : OptionQuote)
    (r : Request) (l : ShadowLedger) (found : lookup key l.orders ≡ some item)
    (opened : is_open item.published.state ≡ true) (passed : Passed l item.published r)
    (valid : IsValid expiry l) where
  abbrev P : Label → Position → Type 0
  P = IsValidPosition expiry

  order_valid : IsValidOrder expiry item.published
  order_valid = AllEntries-lookup (IsValidEntry expiry) key item l.orders valid.orders_valid found

  positions-settle : AllEntries P (settle x item q r l).positions
  unfolding settle settle_buy settle_sell apply_entry_position
  positions-settle =
      let i = item.published.contract.instrument_id in
      elim (Bool-cases (is_buy item.published.side)) [
        | inl b ↦ elim (Option-cases (lookup i l.positions)) [
          | inl e ↦
              rw (b, e)
                (AllEntries-insert P i _ l.positions valid.positions_valid
                  (passed.positive, order_valid.4))
          | inr (p, e) ↦
              let old : P i p = AllEntries-lookup P i p l.positions valid.positions_valid e in
              rw (b, e)
                (mark_position-IsValid expiry q _ (
                  AllEntries-insert P i _ l.positions valid.positions_valid
                    (omega (arith, old.0), old.1)))
        ]
        | inr b ↦ elim (Option-cases (lookup i l.positions)) [
          | inl e ↦ rw (b, e) valid.positions_valid
          | inr (p, e) ↦
              let old : P i p = AllEntries-lookup P i p l.positions valid.positions_valid e in
              elim (Bool-cases (p.quantity - r.quantity == 0)) [
                | inl out ↦ rw (b, e, out) (AllEntries-erase P i l.positions valid.positions_valid)
                | inr left ↦
                    rw (b, e, left)
                      (AllEntries-insert P i _ l.positions valid.positions_valid
                        (ground arith, old.1))
              ]
        ]
      ]

  filled_order-IsValid : IsValidOrder expiry (filled_order item.published r)
  unfolding filled_order
  filled_order-IsValid = ground (arith, order_valid, passed.fits)

  abbrev item' : LedgerOrder
  item' = record item { published = filled_order item.published r }

  -- The change of the two sums by the order's new state.
  buy_sum :
      reserved_buying_power (insert key item' l.orders) + buy_reserve item.published
      ≡ reserved_buying_power l.orders + buy_reserve item'.published
  unfolding reserved_buying_power
  buy_sum = sum_values-insert (λ i. buy_reserve i.published) key item' item l.orders found

  sell_sum :
      (i : Label)
      → reserved_quantity i (insert key item' l.orders) + sell_reserve i item.published
        ≡ reserved_quantity i l.orders + sell_reserve i item'.published
  unfolding reserved_quantity
  sell_sum i = sum_values-insert (λ e. sell_reserve i e.published) key item' item l.orders found

  covered_buy :
      is_buy item.published.side ≡ true
      → pos (reserved_buying_power (insert key item' l.orders)) ≤ℤ (settle x item q r l).cash
  covered_buy b = omega (
    arith,
    -ℤ_parts l.cash (pos (notional item.published r)),
    ap pos_part (cash-settle_buy x item q r l b),
    ap neg_part (cash-settle_buy x item q r l b),
    buy_sum,
    buy_reserve-filled item.published r opened passed.fits b,
    notional-le r.price r.quantity item.published.limit_price item.published.contract.multiplier
        (passed.buy_limit b),
    passed.paid b,
    valid.covered,
  )

  no_buy_reserve :
      is_buy item.published.side ≡ false
      → (buy_reserve item.published ≡ 0) × (buy_reserve item'.published ≡ 0)
  unfolding buy_reserve filled_order
  no_buy_reserve b = ground arith

  covered_sell :
      is_buy item.published.side ≡ false
      → pos (reserved_buying_power (insert key item' l.orders)) ≤ℤ (settle x item q r l).cash
  covered_sell b = omega (
    arith,
    +ℤ_parts l.cash (pos (notional item.published r)),
    ap pos_part (cash-settle_sell x item q r l b),
    ap neg_part (cash-settle_sell x item q r l b),
    buy_sum,
    no_buy_reserve b,
    valid.covered,
  )

  sell_reserve_kept :
      (i : Label)
      → (is_buy item.published.side ≡ true) ⊎ (item.published.contract.instrument_id ≢ i)
      → sell_reserve i item'.published ≡ sell_reserve i item.published
  unfolding sell_reserve filled_order
  sell_reserve_kept i h = ground arith

  held_after :
      (i : Label)
      → reserved_quantity i (insert key item' l.orders)
        ≤ owned_quantity i (settle x item q r l).positions
  held_after i = elim (Bool-cases (is_buy item.published.side)) [
    | inl b ↦ omega (
      arith,
      sell_sum i,
      sell_reserve_kept i (inl b),
      owned-settle_buy x item q r l i b,
      valid.held i,
    )
    | inr b ↦ elim (Bool-cases (item.published.contract.instrument_id == i)) [
      | inl same ↦
          let bound = rw same at (owned-settle_sell x item q r l i b passed) in
          omega (
            arith,
            sell_sum i,
            sell_reserve-filled item.published r opened passed.fits i b
                ((==_iff item.published.contract.instrument_id i).0 same),
            bound,
            valid.held i,
          )
      | inr other ↦
          let bound = rw other at (owned-settle_sell x item q r l i b passed) in
          omega (arith, sell_sum i, sell_reserve_kept i (inr (ground arith)), bound, valid.held i)
    ]
  ]

  publish-IsValid : IsValid expiry (publish x key item q r (settle x item q r l))
  unfolding publish
  publish-IsValid = record {
    covered = elim (Bool-cases (is_buy item.published.side)) [
      | inl b ↦ rw orders-settle (covered_buy b)
      | inr b ↦ rw orders-settle (covered_sell b)
    ];
    held = λ i. rw orders-settle (held_after i);
    orders_valid = rw orders-settle (
        AllEntries-insert (IsValidEntry expiry) key item' l.orders valid.orders_valid
          filled_order-IsValid);
    positions_valid = positions-settle;
  }

-- A fill keeps the invariant, and one that raises changes nothing.
pub apply_fill-IsValid :
    (expiry : Label → Day) (x : Context) (key : ℕ) (item : LedgerOrder) (q : OptionQuote)
    (r : Request) (l : ShadowLedger)
    → lookup key l.orders ≡ some item
    → is_open item.published.state ≡ true
    → IsValid expiry l
    → IsValid expiry (apply_fill x key item q r l).1
unfolding apply_fill
apply_fill-IsValid expiry x key item q r l found opened valid =
    elim (Option-cases (fill_error l item.published r)) [
      | inl e ↦
          rw (e, apply_fill)
            (publish-IsValid expiry x key item q r l found opened
              (fill_error-Passed l item.published r e) valid)
      | inr (error, e) ↦ rw (e, apply_fill) valid
    ]

-- ===== src/Broker/Ledger/Invariant/Expiring.antt =====
-- app/broker/shadow_ledger.py: `expire` keeps the invariant, also where it raises half way.
use sentry.Prelude.{
  ℕ, ◌≤◌, ◌≡◌, refl, ap, inl, inr, ◌≢◌, false, Option, [], ◌∷◌, arith, Bool-cases, ◌==◌, ==_iff,
  ltb, if◌then◌else◌,
}
use sentry.Prelude.Int.{ℤ, pos, ltb_ℤ, ◌≤ℤ◌, ◌*ℤ◌, +ℤ_parts}
use sentry.Prelude.Dict.{Dict, lookup, erase, AllEntries, AllEntries-erase, lookup-erase_ne}
use sentry.Domain.Market.{Label, Day}
use sentry.Domain.Order.{Position}
use sentry.Broker.Ledger.State.{ShadowLedger, LedgerOrder, Context, pure}
use sentry.Broker.Ledger.Keeps.{>>=-keeps}
use sentry.Broker.Ledger.Holdings.{
  reserved_buying_power, reserved_quantity, owned_quantity, sell_reserve, get_or,
}
use sentry.Broker.Ledger.Expiry.{
  ExpirationPolicy, Totals, is_due, expired_order, expire_orders, close_position, expire_position,
  expire_positions, expire_due, expire, is_do_not_exercise, due_ids, no_totals,
}
use sentry.Broker.Ledger.Invariant.{IsValid, IsValidEntry, IsValidOrder, IsValidPosition}
use sentry.Broker.Ledger.Invariant.Ending.{ended_reserves}

*ℤ_nonneg : (a : ℤ) (n : ℕ) → pos 0 ≤ℤ a → pos 0 ≤ℤ a *ℤ n
unfolding ◌*ℤ◌
*ℤ_nonneg (pos m) n h = ground arith
*ℤ_nonneg _ n h = absurd (omega arith)

owned-erase_ne :
    (j i : Label) (d : Dict Position) → j ≢ i → owned_quantity j (erase i d) ≡ owned_quantity j d
unfolding owned_quantity
owned-erase_ne j i d h = rw (lookup-erase_ne j i d h)

module _ (expiry : Label → Day) (x : Context) (day : Day) where
  -- No open sale is left of an instrument whose contract has ended.
  abbrev IsEnded : Dict LedgerOrder → Type 0
  IsEnded d = (i : Label) → expiry i ≤ day → reserved_quantity i d ≡ 0

  expire_orders_valid :
      (d : Dict LedgerOrder)
      → AllEntries (IsValidEntry expiry) d
      → AllEntries (IsValidEntry expiry) (expire_orders x day d)
  unfolding expire_orders
  expire_orders_valid [] h = tt
  expire_orders_valid ((key, item) ∷ rest) h = elim (Bool-cases (is_due x day item)) [
    | inl due ↦ rw due (
      (h.0.0, λ e. absurd (cc e), λ e. absurd (cc e), h.0.3, h.0.4),
      expire_orders_valid rest h.1,
    )
    | inr not_due ↦ rw not_due (h.0, expire_orders_valid rest h.1)
  ]

  expire_orders-buys :
      (d : Dict LedgerOrder)
      → reserved_buying_power (expire_orders x day d) ≤ reserved_buying_power d
  unfolding reserved_buying_power expire_orders
  expire_orders-buys [] = omega arith
  expire_orders-buys ((key, item) ∷ rest) =
      ground (arith, ended_reserves 0 (expired_order item).published refl, expire_orders-buys rest)

  expire_orders-sells :
      (i : Label) (d : Dict LedgerOrder)
      → reserved_quantity i (expire_orders x day d) ≤ reserved_quantity i d
  unfolding reserved_quantity expire_orders
  expire_orders-sells i [] = omega arith
  expire_orders-sells i ((key, item) ∷ rest) =
      ground
        (arith, ended_reserves i (expired_order item).published refl, expire_orders-sells i rest)

  not_due_reserves :
      (i : Label) (item : LedgerOrder)
      → IsValidOrder expiry item.published
      → expiry i ≤ day
      → is_due x day item ≡ false
      → sell_reserve i item.published ≡ 0
  unfolding is_due sell_reserve
  not_due_reserves i item h e d = elim (Bool-cases (item.published.contract.instrument_id == i)) [
    | inl same ↦
        let named : expiry item.published.contract.instrument_id ≡ expiry i =
          ap expiry ((==_iff item.published.contract.instrument_id i).0 same) in
        let ended : item.published.contract.expiration ≤ day = omega arith in ground arith
    | inr other ↦ ground arith
  ]

  expire_orders-IsEnded :
      (d : Dict LedgerOrder) → AllEntries (IsValidEntry expiry) d → IsEnded (expire_orders x day d)
  unfolding reserved_quantity expire_orders
  expire_orders-IsEnded [] h i e = refl
  expire_orders-IsEnded ((key, item) ∷ rest) h i e = ground (
    arith,
    ended_reserves i (expired_order item).published refl,
    not_due_reserves i item h.0 e,
    expire_orders-IsEnded rest h.1 i e,
  )

  close_position-IsValid :
      (i : Label) (p : Position) (per_share : ℤ) (l : ShadowLedger)
      → expiry i ≤ day
      → pos 0 ≤ℤ per_share
      → IsEnded l.orders
      → IsValid expiry l
      → IsValid expiry (close_position i p per_share l)
  unfolding close_position
  close_position-IsValid i p per_share l due fair ended valid = record {
    covered =
        let proceeds = per_share *ℤ p.quantity *ℤ p.contract.multiplier in
        omega (
          arith,
          +ℤ_parts l.cash proceeds,
          *ℤ_nonneg (per_share *ℤ p.quantity) p.contract.multiplier
              (*ℤ_nonneg per_share p.quantity fair),
          valid.covered,
        );
    held = λ j. held_after j;
    orders_valid = valid.orders_valid;
    positions_valid = AllEntries-erase (IsValidPosition expiry) i l.positions valid.positions_valid;
  }
    where
      held_after :
          (j : Label) → reserved_quantity j l.orders ≤ owned_quantity j (erase i l.positions)
      held_after j = elim (Bool-cases (j == i)) [
        | inl same ↦
            let none_left : reserved_quantity j l.orders ≡ 0 =
              ended j (rw ((==_iff j i).0 same) due) in
            omega arith
        | inr other ↦ rw (owned-erase_ne j i l.positions (λ e. ground arith)) (valid.held j)
      ]

  abbrev Closing : ShadowLedger → Type 0
  Closing l = IsValid expiry l × IsEnded l.orders

  close_position-Closing :
      (i : Label) (p : Position) (per_share : ℤ) (l : ShadowLedger)
      → expiry i ≤ day
      → pos 0 ≤ℤ per_share
      → Closing l
      → Closing (close_position i p per_share l)
  close_position-Closing i p per_share l due fair h =
      (close_position-IsValid i p per_share l due fair h.1 h.0, unfold close_position in h.1)

  expire_position-Closing :
      (policy : ExpirationPolicy) (i : Label) (p : Position) (given : ℤ) (t : Totals)
      (l : ShadowLedger)
      → IsValidPosition expiry i p
      → Closing l
      → Closing (expire_position day policy i p given t l).1
  unfolding expire_position
  expire_position-Closing policy i p given t l ok h =
      let per_share = if is_do_not_exercise policy then pos 0 else given in
      elim (Bool-cases (ltb day p.contract.expiration)) [
        | inl later ↦ rw later h
        | inr due ↦ elim (Bool-cases (ltb_ℤ given (pos 0))) [
          | inl negative ↦ rw (due, negative) h
          | inr fair ↦
              let fair' : pos 0 ≤ℤ per_share = ground arith in
              rw (due, fair) (close_position-Closing i p per_share l (ground (arith, ok.1)) fair' h)
        ]
      ]

  expire_positions-Closing :
      (policy : ExpirationPolicy) (settlements : Dict ℤ) (ps : Dict Position) (t : Totals)
      (l : ShadowLedger)
      → AllEntries (IsValidPosition expiry) ps
      → Closing l
      → Closing (expire_positions day policy settlements ps t l).1
  unfolding expire_positions
  expire_positions-Closing policy settlements [] t l ok h = h
  expire_positions-Closing policy settlements ((i, p) ∷ rest) t l ok h =
      let given = get_or (lookup i settlements) (pos 0) in
      let first = expire_position-Closing policy i p given t l ok.0 h in
      >>=-keeps Closing (expire_position day policy i p given t)
        (expire_positions day policy settlements rest) l first
        (λ t' _. expire_positions-Closing policy settlements rest t' _ ok.1 first)

  expire_due-IsValid :
      (policy : ExpirationPolicy) (settlements : Dict ℤ) (l : ShadowLedger)
      → IsValid expiry l
      → IsValid expiry (expire_due x day policy settlements l).1
  unfolding expire_due
  expire_due-IsValid policy settlements l valid =
      let started : ShadowLedger = record l { orders = expire_orders x day l.orders } in
      let begun : IsValid expiry started = record {
        covered = omega (arith, expire_orders-buys l.orders, valid.covered);
        held = λ i. omega (arith, expire_orders-sells i l.orders, valid.held i);
        orders_valid = expire_orders_valid l.orders valid.orders_valid;
        positions_valid = valid.positions_valid;
      } in
      let closed =
        expire_positions-Closing policy settlements l.positions no_totals started
          valid.positions_valid (begun, expire_orders-IsEnded l.orders valid.orders_valid) in
      >>=-keeps (IsValid expiry) (expire_positions day policy settlements l.positions no_totals)
        (λ t. pure (record {
          processed_at = x.now;
          expiration_date = day;
          expired_order_ids = due_ids x day l.orders;
          expired_instrument_ids = t.instruments;
          cash_settlement = t.settlement;
          realized_pnl = t.realized;
          policy = policy;
        }))
        started closed.0 (λ t _. closed.0)

pub expire-IsValid :
    (expiry : Label → Day) (x : Context) (on_date : Option Day) (policy : ExpirationPolicy)
    (settlements : Dict ℤ) (l : ShadowLedger)
    → IsValid expiry l
    → IsValid expiry (expire x on_date policy settlements l).1
unfolding expire
expire-IsValid expiry x on_date policy settlements l valid = grind (
  arith,
  valid,
  expire_due-IsValid expiry x (get_or on_date (x.market_date x.now)) policy settlements l valid,
)

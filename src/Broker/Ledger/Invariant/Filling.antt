-- ===== src/Broker/Ledger/Invariant/Filling.antt =====
-- app/broker/shadow_ledger.py: `_apply_fill` keeps a ledger valid, whatever the fill model decides.
use sentry.Prelude.{
  ℕ, ◌+◌, ◌-◌, ◌≤◌, ◌<◌, ◌≡◌, inl, inr, true, false, none, arith, Bool-cases, Option-cases, ◌==◌,
  if◌then◌else◌, ==_iff,
}
use sentry.Prelude.Int.{pos, ◌+ℤ◌, ◌-ℤ◌, ◌≤ℤ◌}
use sentry.Prelude.Dict.{
  Dict, lookup, insert, erase, AllEntries, AllEntries-insert, AllEntries-lookup, lookup-insert,
  lookup-erase_ne,
}
use sentry.Domain.Enums.{is_buy}
use sentry.Domain.Market.{Label, Day, OptionQuote}
use sentry.Domain.Order.{Position, BrokerOrder}
use sentry.Broker.Ledger.State.{ShadowLedger, LedgerOrder, Context}
use sentry.Broker.Ledger.Holdings.{
  owned_quantity, remaining_quantity, position_quantity, mark_position, marked,
  apply_entry_position,
}
use sentry.Broker.Ledger.Fills.{Request, fill_error, notional, settle, settle_buy, settle_sell}
use sentry.Broker.Ledger.Invariant.{IsValidPosition}

-- What the checks of `_apply_fill` leave.
pub record Passed (l : ShadowLedger) (o : BrokerOrder) (r : Request) : Type 0 where
  pub positive : 0 < r.quantity
  pub fits : r.quantity ≤ remaining_quantity o
  pub priced : 0 < r.price
  pub buy_limit : is_buy o.side ≡ true → r.price ≤ o.limit_price
  pub sell_limit : is_buy o.side ≡ false → o.limit_price ≤ r.price
  pub paid : is_buy o.side ≡ true → pos (notional o r) ≤ℤ l.cash
  pub owned :
      is_buy o.side ≡ false
      → r.quantity ≤ position_quantity (lookup o.contract.instrument_id l.positions)

pub fill_error-Passed :
    (l : ShadowLedger) (o : BrokerOrder) (r : Request) → fill_error l o r ≡ none → Passed l o r
unfolding fill_error
fill_error-Passed l o r h = ground arith

module _ (expiry : Label → Day) where
  pub mark_position-IsValid :
      (q : OptionQuote) (ps : Dict Position)
      → AllEntries (IsValidPosition expiry) ps
      → AllEntries (IsValidPosition expiry) (mark_position q ps)
  unfolding mark_position marked
  mark_position-IsValid q ps h = elim (Option-cases (lookup q.contract.instrument_id ps)) [
    | inl e ↦ rw e h
    | inr (p, e) ↦ rw e (
        AllEntries-insert (IsValidPosition expiry) q.contract.instrument_id (marked q p) ps h
          (AllEntries-lookup (IsValidPosition expiry) q.contract.instrument_id p ps h e))
  ]

pub owned-mark_position :
    (i : Label) (q : OptionQuote) (ps : Dict Position)
    → owned_quantity i (mark_position q ps) ≡ owned_quantity i ps
unfolding owned_quantity mark_position marked
owned-mark_position i q ps = elim (Option-cases (lookup q.contract.instrument_id ps)) [
  | inl e ↦ rw e
  | inr (p, e) ↦ rw e (ground (arith, lookup-insert i q.contract.instrument_id (marked q p) ps))
]

-- A position that is written over by one of no smaller quantity.
owned-insert_le :
    (i c : Label) (p : Position) (ps : Dict Position)
    → owned_quantity c ps ≤ p.quantity
    → owned_quantity i ps ≤ owned_quantity i (insert c p ps)
unfolding owned_quantity
owned-insert_le i c p ps h = ground (arith, lookup-insert i c p ps)

-- A position that is sold out, and one that is sold in part.
owned-erase_le :
    (i c : Label) (n : ℕ) (ps : Dict Position)
    → owned_quantity c ps ≤ n
    → owned_quantity i ps ≤ owned_quantity i (erase c ps) + (if c == i then n else 0)
unfolding owned_quantity
owned-erase_le i c n ps h = elim (Bool-cases (c == i)) [
  | inl same ↦ let e : c ≡ i = (==_iff c i).0 same in rw (same, ← e) (omega arith)
  | inr other ↦ rw (other, lookup-erase_ne i c ps (λ e. ground arith)) (omega arith)
]

owned-insert_sub :
    (i c : Label) (n : ℕ) (p : Position) (ps : Dict Position)
    → owned_quantity c ps ≤ p.quantity + n
    → owned_quantity i ps ≤ owned_quantity i (insert c p ps) + (if c == i then n else 0)
unfolding owned_quantity
owned-insert_sub i c n p ps h = ground (arith, lookup-insert i c p ps)

module _ (x : Context) (item : LedgerOrder) (q : OptionQuote) (r : Request) (l : ShadowLedger) where
  pub orders-settle : (settle x item q r l).orders ≡ l.orders
  unfolding settle settle_buy settle_sell apply_entry_position
  orders-settle = ground arith

  pub cash-settle_buy :
      is_buy item.published.side ≡ true
      → (settle x item q r l).cash ≡ l.cash -ℤ pos (notional item.published r)
  unfolding settle settle_buy apply_entry_position
  cash-settle_buy b = ground arith

  pub cash-settle_sell :
      is_buy item.published.side ≡ false
      → (settle x item q r l).cash ≡ l.cash +ℤ pos (notional item.published r)
  unfolding settle settle_sell
  cash-settle_sell b = ground arith

  pub owned-settle_buy :
      (i : Label)
      → is_buy item.published.side ≡ true
      → owned_quantity i l.positions ≤ owned_quantity i (settle x item q r l).positions
  unfolding settle settle_buy apply_entry_position owned_quantity
  owned-settle_buy i b =
      elim (Option-cases (lookup item.published.contract.instrument_id l.positions)) [
        | inl e ↦ rw (b, e) (owned-insert_le i _ _ l.positions (rw e (omega arith)))
        | inr (p, e) ↦
            rw (b, e, owned-mark_position) (owned-insert_le i _ _ l.positions (rw e (omega arith)))
      ]

  pub owned-settle_sell :
      (i : Label)
      → is_buy item.published.side ≡ false
      → Passed l item.published r
      → owned_quantity i l.positions
        ≤ owned_quantity i (settle x item q r l).positions
          + (if item.published.contract.instrument_id == i then r.quantity else 0)
  unfolding settle settle_sell owned_quantity
  owned-settle_sell i b h =
      elim (Option-cases (lookup item.published.contract.instrument_id l.positions)) [
        | inl e ↦ absurd (ground arith)
        | inr (p, e) ↦ elim (Bool-cases (p.quantity - r.quantity == 0)) [
          | inl out ↦
              rw (b, e, out) (owned-erase_le i _ r.quantity l.positions (rw e (ground arith)))
          | inr left ↦
              rw (b, e, left) (owned-insert_sub i _ r.quantity _ l.positions (rw e (omega arith)))
        ]
      ]

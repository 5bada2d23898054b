-- ===== src/Broker/Ledger/Invariant/Observing.antt =====
-- app/broker/shadow_ledger.py: `observe_quote` keeps the invariant, also where it raises.
use sentry.Prelude.{
  ℕ, ◌-◌, ◌≡◌, inl, inr, some, List, [], ◌∷◌, ◌++◌, arith, Bool-cases, Option-cases, ltb,
}
use sentry.Prelude.Dict.{lookup, insert, keys}
use sentry.Domain.Market.{Label, Day, OptionQuote}
use sentry.Broker.FillModel.{should_fill}
use sentry.Broker.Ledger.State.{ShadowLedger, LedgerOrder, Context, pure, ◌>>=◌}
use sentry.Broker.Ledger.Keeps.{>>=-keeps}
use sentry.Broker.Ledger.Holdings.{mark_position, remaining_quantity}
use sentry.Broker.Ledger.Fills.{apply_fill}
use sentry.Broker.Ledger.Quotes.{
  fill_order, fill_at, fill_loop, accept_quote, observe_quote, request_of, is_eligible,
}
use sentry.Broker.Ledger.Invariant.{IsValid}
use sentry.Broker.Ledger.Invariant.Filling.{mark_position-IsValid, owned-mark_position}
use sentry.Broker.Ledger.Invariant.Apply.{apply_fill-IsValid}

module _ (expiry : Label → Day) (x : Context) (q : OptionQuote) where
  fill_order-IsValid :
      (key : ℕ) (item : LedgerOrder) (l : ShadowLedger)
      → lookup key l.orders ≡ some item
      → IsValid expiry l
      → IsValid expiry (fill_order x q key item l).1
  unfolding fill_order
  fill_order-IsValid key item l found valid =
      let d = x.fill_model.evaluate item.published q (remaining_quantity item.published) in
      elim (Bool-cases (is_eligible q item.published)) [
        | inl e ↦ elim (Bool-cases (should_fill d)) [
          | inl s ↦
              let after =
                apply_fill-IsValid expiry x key item q (request_of d) l found (ground arith)
                  valid in
              rw (e, s)
                (>>=-keeps (IsValid expiry) (apply_fill x key item q (request_of d))
                  (λ fill. pure (fill ∷ [])) l after (λ fill _. after))
          | inr s ↦ rw (e, s) valid
        ]
        | inr e ↦ rw e valid
      ]

  pub fill_at-IsValid :
      (key : ℕ) (l : ShadowLedger) → IsValid expiry l → IsValid expiry (fill_at x q key l).1
  unfolding fill_at
  fill_at-IsValid key l valid = elim (Option-cases (lookup key l.orders)) [
    | inl e ↦ rw (e, fill_at) valid
    | inr (item, e) ↦ rw (e, fill_at) (fill_order-IsValid key item l e valid)
  ]

  fill_loop-IsValid :
      (ids : List ℕ) (l : ShadowLedger) → IsValid expiry l → IsValid expiry (fill_loop x q ids l).1
  unfolding fill_loop
  fill_loop-IsValid [] l valid = valid
  fill_loop-IsValid (key ∷ rest) l valid =
      let first = fill_at-IsValid key l valid in
      >>=-keeps (IsValid expiry) (fill_at x q key)
        (λ fills. fill_loop x q rest >>= λ more. pure (fills ++ more)) l first
        λ fills _.
          let later = fill_loop-IsValid rest (fill_at x q key l).1 first in
          >>=-keeps (IsValid expiry) (fill_loop x q rest) (λ more. pure (fills ++ more))
            (fill_at x q key l).1 later (λ more _. later)

  -- The ledger after the quote is stored and the position marked.
  abbrev pub seen : ShadowLedger → ShadowLedger
  seen l = record l {
    quotes = insert q.contract.instrument_id q l.quotes;
    positions = mark_position q l.positions;
  }

  pub seen-IsValid : (l : ShadowLedger) → IsValid expiry l → IsValid expiry (seen l)
  seen-IsValid l valid = record {
    covered = valid.covered;
    held = λ i. rw (owned-mark_position i q l.positions) (valid.held i);
    orders_valid = valid.orders_valid;
    positions_valid = mark_position-IsValid expiry q l.positions valid.positions_valid;
  }

  accept_quote-IsValid :
      (l : ShadowLedger) → IsValid expiry l → IsValid expiry (accept_quote x q l).1
  unfolding accept_quote
  accept_quote-IsValid l valid = elim (Bool-cases (ltb l.max_quote_age (x.now - q.observed_at))) [
    | inl stale ↦ rw stale (seen-IsValid l valid)
    | inr fresh ↦ rw fresh (fill_loop-IsValid (keys l.orders) (seen l) (seen-IsValid l valid))
  ]

  pub observe_quote-IsValid :
      (l : ShadowLedger) → IsValid expiry l → IsValid expiry (observe_quote x q l).1
  unfolding observe_quote
  observe_quote-IsValid l valid = grind (arith, accept_quote-IsValid l valid)

-- ===== src/Broker/Ledger/Replay.antt =====
-- app/broker/shadow_ledger.py: `observe_quote` called again with the same quote.
mod Tests
use sentry.Prelude.{
  ℕ, ◌≤◌, ◌≡◌, refl, inl, inr, ◌⊎◌, true, false, none, some, List, [], ◌∷◌, arith, Bool-cases,
  Option-cases, Option, ◌||◌, ltb, ◌==◌, ==_refl,
}
use sentry.Prelude.Int.{ℤ}
use sentry.Prelude.Dict.{lookup, insert, keys, lookup-insert_self}
use sentry.Domain.Market.{Time, OptionQuote, same_contract}
use sentry.Domain.Order.{Fill}
use sentry.Broker.Ledger.State.{ShadowLedger, LedgerOrder, Context, ok}
use sentry.Broker.Ledger.Holdings.{remaining_quantity, apply_entry_position, mark_position}
use sentry.Broker.Ledger.Fills.{Request, apply_fill, publish, settle, settle_buy, settle_sell}
use sentry.Broker.Ledger.Quotes.{
  fill_order, fill_at, fill_loop, accept_quote, observe_quote, request_of, same_quote,
  same_optional, same_delta,
}

module _ (x : Context) (q : OptionQuote) where
  settle-quotes :
      (item : LedgerOrder) (r : Request) (l : ShadowLedger)
      → (settle x item q r l).quotes ≡ l.quotes
  unfolding settle settle_buy settle_sell apply_entry_position
  settle-quotes item r l = ground arith

  apply_fill-quotes :
      (key : ℕ) (item : LedgerOrder) (r : Request) (l : ShadowLedger)
      → (apply_fill x key item q r l).1.quotes ≡ l.quotes
  unfolding apply_fill publish
  apply_fill-quotes key item r l = ground (arith, settle-quotes item r l)

  fill_order-quotes :
      (key : ℕ) (item : LedgerOrder) (l : ShadowLedger)
      → (fill_order x q key item l).1.quotes ≡ l.quotes
  unfolding fill_order
  fill_order-quotes key item l =
      let d = x.fill_model.evaluate item.published q (remaining_quantity item.published) in
      ground (arith, apply_fill-quotes key item (request_of d) l)

  fill_at-quotes : (key : ℕ) (l : ShadowLedger) → (fill_at x q key l).1.quotes ≡ l.quotes
  unfolding fill_at
  fill_at-quotes key l = elim (Option-cases (lookup key l.orders)) [
    | inl e ↦ rw (e, fill_at) refl
    | inr (item, e) ↦ rw (e, fill_at) (fill_order-quotes key item l)
  ]

  fill_loop-quotes : (ids : List ℕ) (l : ShadowLedger) → (fill_loop x q ids l).1.quotes ≡ l.quotes
  unfolding fill_loop
  fill_loop-quotes [] l = refl
  fill_loop-quotes (key ∷ rest) l =
      ground (arith, fill_at-quotes key l, fill_loop-quotes rest (fill_at x q key l).1)

  accept_quote-quotes :
      (l : ShadowLedger)
      → (accept_quote x q l).1.quotes ≡ insert q.contract.instrument_id q l.quotes
  unfolding accept_quote
  accept_quote-quotes l = ground (
    arith,
    fill_loop-quotes (keys l.orders) (record l {
      quotes = insert q.contract.instrument_id q l.quotes;
      positions = mark_position q l.positions;
    }),
  )

  same_optional_refl : (o : Option ℕ) → same_optional o o ≡ true
  same_optional_refl none = refl
  same_optional_refl (some a) = ==_refl a

  same_delta_refl : (o : Option ℤ) → same_delta o o ≡ true
  same_delta_refl none = refl
  same_delta_refl (some a) = ground arith

  same_quote_refl : same_quote q q ≡ true
  same_quote_refl = ground (
    arith,
    same_optional_refl q.last,
    same_optional_refl q.mark,
    same_optional_refl q.volume,
    same_optional_refl q.open_interest,
    same_optional_refl q.implied_volatility,
    same_delta_refl q.delta,
    same_optional_refl q.source_id,
    same_optional_refl q.bid_size,
    same_optional_refl q.ask_size,
  )

  replayed :
      (m : ShadowLedger) (p : OptionQuote)
      → (ltb x.now q.effective_at || ltb x.now q.observed_at) ≡ false
      → lookup q.contract.instrument_id m.quotes ≡ some p
      → (p.snapshot_id == q.snapshot_id) ≡ true
      → same_quote p q ≡ true
      → observe_quote x q m ≡ (ok [], m)
  unfolding observe_quote
  replayed m p now found id same = rw (now, found, same, id) refl

  -- A quote that is taken in is new, or the last one again.
  observe_quote-cases :
      (l : ShadowLedger) (fills : List Fill)
      → (observe_quote x q l).0 ≡ ok fills
      → ((ltb x.now q.effective_at || ltb x.now q.observed_at) ≡ false)
        × ((observe_quote x q l ≡ accept_quote x q l)
            ⊎ ((observe_quote x q l ≡ (ok [], l))
                × ((p : OptionQuote) × (lookup q.contract.instrument_id l.quotes ≡ some p)
                    × ((p.snapshot_id == q.snapshot_id) ≡ true)
                    × (same_quote p q ≡ true))))
  unfolding observe_quote
  observe_quote-cases l fills h =
      elim (Bool-cases (ltb x.now q.effective_at || ltb x.now q.observed_at)) [
        | inl future ↦ absurd (cc (rw (future, observe_quote) at h))
        | inr now ↦ elim (Option-cases (lookup q.contract.instrument_id l.quotes)) [
          | inl e ↦ (now, inl (rw (now, e, observe_quote) refl))
          | inr (p, e) ↦ elim (Bool-cases (p.snapshot_id == q.snapshot_id)) [
            | inl id ↦ elim (Bool-cases (same_quote p q)) [
              | inl same ↦ (now, inr (rw (now, e, same, id, observe_quote) refl, (p, e, id, same)))
              | inr other ↦ absurd (cc (rw (now, e, other, id, observe_quote) at h))
            ]
            | inr id ↦ elim (Bool-cases (ltb q.effective_at p.effective_at)) [
              | inl rewound ↦ absurd (cc (rw (now, e, id, rewound, observe_quote) at h))
              | inr order ↦ elim (Bool-cases (same_contract p.contract q.contract)) [
                | inl c ↦ (now, inl (rw (now, e, id, order, c, observe_quote) refl))
                | inr c ↦ absurd (cc (rw (now, e, id, order, c, observe_quote) at h))
              ]
            ]
          ]
        ]
      ]

-- A quote that was taken in, observed again at any later time, fills nothing and changes nothing.
pub observe_quote-replay :
    (x : Context) (later : Time) (q : OptionQuote) (l : ShadowLedger) {fills : List Fill}
    → x.now ≤ later
    → (observe_quote x q l).0 ≡ ok fills
    → observe_quote (record x { now = later }) q (observe_quote x q l).1
      ≡ (ok [], (observe_quote x q l).1)
observe_quote-replay x later q l {fills} order h =
    let (now, cases) = observe_quote-cases x q l fills h in
    let y = record x { now = later } in
    let still : (ltb later q.effective_at || ltb later q.observed_at) ≡ false = ground arith in
    elim cases [
      | inl e ↦
          let stored : lookup q.contract.instrument_id (accept_quote x q l).1.quotes ≡ some q =
            rw (accept_quote-quotes x q l, lookup-insert_self) refl in
          rw e (
            replayed y q (accept_quote x q l).1 q still stored (==_refl q.snapshot_id)
              (same_quote_refl x q))
      | inr (e, (p, found, id, same)) ↦ rw e (replayed y q l p still found id same)
    ]

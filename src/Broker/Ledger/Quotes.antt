-- ===== src/Broker/Ledger/Quotes.antt =====
-- app/broker/shadow_ledger.py: `observe_quote`, one externally supplied quote.
use sentry.Prelude.{
  ℕ, ◌-◌, Bool, true, false, not, ◌&&◌, ◌||◌, Option, none, some, List, [], ◌∷◌, ◌++◌, ltb, leb,
  ◌==◌, if◌then◌else◌,
}
use sentry.Prelude.Int.{ℤ, leb_ℤ}
use sentry.Prelude.Dict.{lookup, insert, keys}
use sentry.Domain.Market.{OptionQuote, same_contract}
use sentry.Domain.Order.{Fill, BrokerOrder}
use sentry.Broker.FillModel.{FillDecision, should_fill}
use sentry.Broker.Ledger.State.{
  LedgerOrder, Context, Error, ok, err, Action, pure, raise, is_open, ◌>>=◌,
}
use sentry.Broker.Ledger.Holdings.{get_or, mark_position, remaining_quantity}
use sentry.Broker.Ledger.Fills.{Request, apply_fill}

abbrev pub same_optional : Option ℕ → Option ℕ → Bool
same_optional none none = true
same_optional (some a) (some b) = a == b
same_optional _ _ = false

abbrev pub same_delta : Option ℤ → Option ℤ → Bool
same_delta none none = true
same_delta (some a) (some b) = leb_ℤ a b && leb_ℤ b a
same_delta _ _ = false

-- `==` of two quotes: field by field.
abbrev pub same_quote : OptionQuote → OptionQuote → Bool
same_quote p q =
    p.snapshot_id == q.snapshot_id
    && same_contract p.contract q.contract
    && p.bid == q.bid
    && p.ask == q.ask
    && same_optional p.last q.last
    && same_optional p.mark q.mark
    && same_optional p.volume q.volume
    && same_optional p.open_interest q.open_interest
    && same_optional p.implied_volatility q.implied_volatility
    && same_delta p.delta q.delta
    && same_optional p.bid_size q.bid_size
    && same_optional p.ask_size q.ask_size
    && p.provider == q.provider
    && p.capability_version == q.capability_version
    && p.observed_at == q.observed_at
    && p.effective_at == q.effective_at
    && same_optional p.source_id q.source_id

-- `order.submitted_at is None or effective_at <= order.submitted_at`
abbrev pub not_after_submission : OptionQuote → BrokerOrder → Bool
not_after_submission q o = elim o.submitted_at [ none ↦ true | some t ↦ leb q.effective_at t ]

-- The order takes part in this quote event.
abbrev pub is_eligible : OptionQuote → BrokerOrder → Bool
is_eligible q o =
    o.contract.instrument_id == q.contract.instrument_id
    && is_open o.state
    && not (not_after_submission q o)

abbrev pub request_of : FillDecision → Request
request_of d = record {
  quantity = d.quantity;
  price = get_or d.price 0;
  seed = d.deterministic_seed;
}

-- One round of the loop over the orders, at the order that stands under `key`.
unfoldable pub fill_order : Context → OptionQuote → ℕ → LedgerOrder → Action (List Fill)
fill_order x q key item l =
    let o = item.published in
    let d = x.fill_model.evaluate o q (remaining_quantity o) in
    if not (is_eligible q o)
    then (ok [], l)
    else if not (should_fill d)
    then (ok [], l)
    else (do fill ← apply_fill x key item q (request_of d); pure (fill ∷ [])) l

unfoldable pub fill_at : Context → OptionQuote → ℕ → Action (List Fill)
fill_at x q key l = elim (lookup key l.orders) [
  | none ↦ (ok [], l)
  | some item ↦ fill_order x q key item l
]

-- The loop over the orders that were there when it began; the orders are shared objects, so each
-- round reads the present one.
unfoldable pub fill_loop : Context → OptionQuote → List ℕ → Action (List Fill)
fill_loop x q [] = pure []
fill_loop x q (key ∷ rest) = do
  first ← fill_at x q key
  later ← fill_loop x q rest
  pure (first ++ later)

-- `observe_quote` below its checks.
unfoldable pub accept_quote : Context → OptionQuote → Action (List Fill)
accept_quote x q l =
    let seen = record l {
      quotes = insert q.contract.instrument_id q l.quotes;
      positions = mark_position q l.positions;
    } in
    if ltb l.max_quote_age (x.now - q.observed_at)
    then (ok [], seen)
    else fill_loop x q (keys l.orders) seen

-- The checks against the instrument's last quote.
abbrev pub compare_prior : Context → OptionQuote → Option OptionQuote → Action (List Fill)
compare_prior x q none = accept_quote x q
compare_prior x q (some prior) =
    if prior.snapshot_id == q.snapshot_id
    then if not (same_quote prior q) then raise Error.quote_reused else pure []
    else if ltb q.effective_at prior.effective_at
    then raise Error.quote_out_of_order
    else if not (same_contract prior.contract q.contract)
    then raise Error.contract_reused
    else accept_quote x q

unfoldable pub observe_quote : Context → OptionQuote → Action (List Fill)
observe_quote x q l =
    if ltb x.now q.effective_at || ltb x.now q.observed_at
    then (err Error.future_quote, l)
    else compare_prior x q (lookup q.contract.instrument_id l.quotes) l

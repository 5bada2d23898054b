-- ===== src/Broker/Ledger/Fills.antt =====
-- app/broker/shadow_ledger.py: `_apply_fill` and `_apply_exit_position`.
use sentry.Prelude.{
  ℕ, ◌+◌, ◌*◌, not, ◌&&◌, ◌||◌, Option, none, some, List, [], ◌∷◌, ◌++◌, ltb, leb, ◌==◌,
  if◌then◌else◌, elem, length,
}
use sentry.Prelude.Decimal.{quotient}
use sentry.Prelude.Int.{pos, ◌+ℤ◌, ◌-ℤ◌, ltb_ℤ}
use sentry.Prelude.Dict.{Dict, lookup, insert}
use sentry.Domain.Enums.{OrderState, is_buy}
use sentry.Domain.Market.{Uuid, Day, Money, OptionQuote}
use sentry.Domain.Order.{BrokerOrder, Fill, Position}
use sentry.Broker.Ledger.State.{ShadowLedger, LedgerOrder, Context, Error, Result, ok, err}
use sentry.Broker.Ledger.Holdings.{
  get_or, remaining_quantity, apply_entry_position, exit_found, position_quantity,
}

-- A fill as the fill model asks for it.
pub record Request : Type 0 where
  pub quantity : ℕ
  pub price : Money
  pub seed : ℕ

abbrev pub notional : BrokerOrder → Request → ℕ
notional o r = r.price * r.quantity * o.contract.multiplier

-- The checks of `_apply_fill`, in order, with that of `_apply_exit_position`: all of them stand
-- before the first write. `none` means that the fill goes through.
unfoldable pub fill_error : ShadowLedger → BrokerOrder → Request → Option Error
fill_error l o r =
    if leb r.quantity 0 || ltb (remaining_quantity o) r.quantity
    then some Error.fill_quantity
    else if leb r.price 0
    then some Error.fill_price
    else if is_buy o.side && ltb o.limit_price r.price
    then some Error.buy_over_limit
    else if not (is_buy o.side) && ltb r.price o.limit_price
    then some Error.sell_under_limit
    else if is_buy o.side && ltb_ℤ l.cash (pos (notional o r))
    then some Error.cash_negative
    else if not (is_buy o.side)
        && ltb (position_quantity (lookup o.contract.instrument_id l.positions)) r.quantity
    then some Error.sell_exceeds_position
    else none

-- `self._entry_orders_by_date.setdefault(day, set()).add(order_id)`
abbrev pub add_entry : Day → Uuid → Dict (List Uuid) → Dict (List Uuid)
add_entry day id d =
    let ids : List Uuid = get_or (lookup day d) [] in
    insert day (if elem id ids then ids else id ∷ ids) d

-- The order with one more fill.
unfoldable pub filled_order : BrokerOrder → Request → BrokerOrder
filled_order o r =
    let filled = o.filled_quantity + r.quantity in
    record o {
      state = if filled == o.quantity then OrderState.filled else OrderState.partial;
      filled_quantity = filled;
      average_fill_price = some (
          quotient (get_or o.average_fill_price 0 * o.filled_quantity + r.price * r.quantity)
            filled);
    }

abbrev pub new_fill : Context → ShadowLedger → OptionQuote → BrokerOrder → Request → Fill
new_fill x l q o r = record {
  fill_id = x.fill_id (length l.fills);
  created_at = x.now;
  order_id = o.order_id;
  quantity = r.quantity;
  price = r.price;
  market_event_id = q.snapshot_id;
  deterministic_seed = r.seed;
}

-- The buy branch: cash, position and the day's admissions.
unfoldable pub settle_buy :
    Context → LedgerOrder → OptionQuote → Request → ShadowLedger → ShadowLedger
settle_buy x item q r l =
    let o = item.published in
    let paid = record l { cash = l.cash -ℤ pos (notional o r) } in
    let held = apply_entry_position x item.command o.contract q r.quantity r.price paid in
    record held {
      entry_orders_by_date = add_entry (x.market_date x.now) o.order_id held.entry_orders_by_date;
    }

abbrev pub exit_position : LedgerOrder → Request → Option Position → ShadowLedger → ShadowLedger
exit_position item r none l = l
exit_position item r (some p) l = exit_found item.published.contract r.quantity r.price p l

-- The sell branch, on a position that covers the sale.
unfoldable pub settle_sell : LedgerOrder → Request → ShadowLedger → ShadowLedger
settle_sell item r l =
    let o = item.published in
    let left = exit_position item r (lookup o.contract.instrument_id l.positions) l in
    record left { cash = left.cash +ℤ pos (notional o r) }

unfoldable pub settle : Context → LedgerOrder → OptionQuote → Request → ShadowLedger → ShadowLedger
settle x item q r l =
    if is_buy item.published.side then settle_buy x item q r l else settle_sell item r l

-- The last part: the order's new state, and the record of the fill.
unfoldable pub publish :
    Context → ℕ → LedgerOrder → OptionQuote → Request → ShadowLedger → ShadowLedger
publish x key item q r l = record l {
  orders = insert key (record item { published = filled_order item.published r }) l.orders;
  fills = l.fills ++ new_fill x l q item.published r ∷ [];
}

-- `_apply_fill` on the order that stands under `key`.
unfoldable pub apply_fill :
    Context → ℕ → LedgerOrder → OptionQuote → Request → ShadowLedger → Result Fill × ShadowLedger
apply_fill x key item q r l = elim (fill_error l item.published r) [
  | some e ↦ (err e, l)
  | none ↦ (ok (new_fill x l q item.published r), publish x key item q r (settle x item q r l))
]

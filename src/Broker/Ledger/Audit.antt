-- ===== src/Broker/Ledger/Audit.antt =====
-- app/broker/shadow_ledger.py: `account_snapshot`, `_invariant_discrepancies` and
-- `reconciliation_report`.
use sentry.Prelude.{
  ℕ, ◌+◌, ◌*◌, Bool, true, false, not, ◌&&◌, Option, none, some, List, [], ◌∷◌, ltb, leb, ◌==◌,
  if◌then◌else◌, is_empty, elem, length,
}
use sentry.Prelude.Int.{pos, pos_part, ltb_ℤ}
use sentry.Prelude.Dict.{Dict, lookup, keys}
use sentry.Domain.Enums.{OrderState, is_buy}
use sentry.Domain.Market.{Uuid, Label, AccountSnapshot}
use sentry.Domain.Order.{Position}
use sentry.Broker.Ledger.State.{ShadowLedger, LedgerOrder, Context, is_open}
use sentry.Broker.Ledger.Holdings.{
  get_or, buying_power, reserved_buying_power, available_position_quantity,
}

pub data Discrepancy : Type 0 where
  cash_is_negative reservations_exceed_cash : Discrepancy
  invalid_filled_quantity filled_incomplete : Uuid → Discrepancy
  position_not_positive position_oversubscribed : Label → Discrepancy

-- `if test: issues.append(i)`, in front of the issues that come after it.
abbrev pub note_if : Bool → Discrepancy → List Discrepancy → List Discrepancy
note_if true i rest = i ∷ rest
note_if false i rest = rest

abbrev pub is_filled : OrderState → Bool
is_filled OrderState.filled = true
is_filled _ = false

unfoldable pub order_issues : Dict LedgerOrder → List Discrepancy → List Discrepancy
order_issues [] rest = rest
order_issues ((_, item) ∷ more) rest =
    let o = item.published in
    note_if (ltb o.quantity o.filled_quantity) (Discrepancy.invalid_filled_quantity o.order_id) (
      note_if (is_filled o.state && not (o.filled_quantity == o.quantity))
        (Discrepancy.filled_incomplete o.order_id) (order_issues more rest))

unfoldable pub position_issues : ShadowLedger → Dict Position → List Discrepancy
position_issues l [] = []
position_issues l ((i, p) ∷ more) =
    note_if (leb p.quantity 0) (Discrepancy.position_not_positive i) (
      note_if (ltb_ℤ (available_position_quantity i l) (pos 0))
        (Discrepancy.position_oversubscribed i) (position_issues l more))

-- `_invariant_discrepancies`
unfoldable pub discrepancies : ShadowLedger → List Discrepancy
discrepancies l = note_if (ltb_ℤ l.cash (pos 0)) Discrepancy.cash_is_negative (
    note_if (ltb_ℤ (buying_power l) (pos 0)) Discrepancy.reservations_exceed_cash
      (order_issues l.orders (position_issues l l.positions)))

-- `ReconciliationReport.successful`
unfoldable pub reconciles : ShadowLedger → Bool
reconciles l = is_empty (discrepancies l)

abbrev pub add_instrument : Label → List Label → List Label
add_instrument i is = if elem i is then is else i ∷ is

-- `set(self._positions) | pending_instruments`
unfoldable pub exposed_instruments : Dict LedgerOrder → List Label → List Label
exposed_instruments [] is = is
exposed_instruments ((_, item) ∷ rest) is = exposed_instruments rest (
    if is_open item.published.state && is_buy item.published.side
    then add_instrument item.published.contract.instrument_id is
    else is)

unfoldable pub position_cost : Dict Position → ℕ
position_cost [] = 0
position_cost ((_, p) ∷ rest) =
    p.average_entry_price * p.quantity * p.contract.multiplier + position_cost rest

-- `account_snapshot`. A negative `cash` fails `AccountSnapshot`'s own check: that is `none`.
unfoldable pub account_snapshot : (ℕ → Uuid) → Context → ShadowLedger → Option AccountSnapshot
account_snapshot snapshot_id x l =
    if ltb_ℤ l.cash (pos 0)
    then none
    else some (record {
      snapshot_id = snapshot_id x.now;
      environment = l.environment;
      account_kind = l.account_kind;
      cash = pos_part l.cash;
      buying_power = pos_part (buying_power l);
      open_option_risk = position_cost l.positions + reserved_buying_power l.orders;
      open_positions = length (exposed_instruments l.orders (keys l.positions));
      new_entries_today = length (get_or (lookup (x.market_date x.now) l.entry_orders_by_date) []);
      as_of = x.now;
      is_authenticated = true;
      state_known = true;
    })

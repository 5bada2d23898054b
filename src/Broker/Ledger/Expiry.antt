-- ===== src/Broker/Ledger/Expiry.antt =====
-- app/broker/shadow_ledger.py: `expire`, which ends due orders and positions and makes no shares.
use sentry.Prelude.{
  ℕ, Bool, true, false, ◌&&◌, ◌||◌, Option, none, some, List, [], ◌∷◌, ◌++◌, ltb, leb,
  if◌then◌else◌,
}
use sentry.Prelude.Int.{ℤ, pos, ◌+ℤ◌, ◌-ℤ◌, ◌*ℤ◌, ltb_ℤ}
use sentry.Prelude.Dict.{Dict, lookup, insert, erase}
use sentry.Domain.Enums.{OrderState}
use sentry.Domain.Market.{Uuid, Label, Time, Day}
use sentry.Domain.Order.{Position}
use sentry.Broker.Ledger.State.{
  ShadowLedger, LedgerOrder, Context, Error, ok, err, Action, pure, raise, is_open, ◌>>=◌,
}
use sentry.Broker.Ledger.Holdings.{get_or}

pub data ExpirationPolicy : Type 0 where
  do_not_exercise cash_settle : ExpirationPolicy

abbrev pub is_do_not_exercise : ExpirationPolicy → Bool
is_do_not_exercise ExpirationPolicy.do_not_exercise = true
is_do_not_exercise ExpirationPolicy.cash_settle = false

pub record ExpirationResult : Type 0 where
  pub processed_at : Time
  pub expiration_date : Day
  pub expired_order_ids : List Uuid
  pub expired_instrument_ids : List Label
  pub cash_settlement : ℤ
  pub realized_pnl : ℤ
  pub policy : ExpirationPolicy

-- The order is open, and its day or its contract has ended by `day`.
unfoldable pub is_due : Context → Day → LedgerOrder → Bool
is_due x day item =
    let o = item.published in
    let submitted_date : ℕ = elim o.submitted_at [ none ↦ day | some t ↦ x.market_date t ] in
    is_open o.state
    && ((item.command.is_day && leb submitted_date day) || leb o.contract.expiration day)

abbrev pub expired_order : LedgerOrder → LedgerOrder
expired_order item = record item {
  published = record item.published { state = OrderState.expired };
}

-- The loop over the orders.
unfoldable pub expire_orders : Context → Day → Dict LedgerOrder → Dict LedgerOrder
expire_orders x day [] = []
expire_orders x day ((key, item) ∷ rest) =
    (key, if is_due x day item then expired_order item else item) ∷ expire_orders x day rest

abbrev pub due_ids : Context → Day → Dict LedgerOrder → List Uuid
due_ids x day [] = []
due_ids x day ((key, item) ∷ rest) =
    if is_due x day item then item.published.order_id ∷ due_ids x day rest else due_ids x day rest

-- What the loop over the positions carries.
pub record Totals : Type 0 where
  pub instruments : List Label
  pub settlement : ℤ
  pub realized : ℤ

-- A position that is due is closed at a settlement of zero or more for each share.
unfoldable pub close_position : Label → Position → ℤ → ShadowLedger → ShadowLedger
close_position i p per_share l =
    let pnl = (per_share -ℤ pos p.average_entry_price) *ℤ p.quantity *ℤ p.contract.multiplier in
    record l {
      cash = l.cash +ℤ per_share *ℤ p.quantity *ℤ p.contract.multiplier;
      realized_pnl = l.realized_pnl +ℤ pnl;
      closed_realized_pnl =
          insert i (get_or (lookup i l.closed_realized_pnl) (pos 0) +ℤ p.realized_pnl +ℤ pnl)
            l.closed_realized_pnl;
      positions = erase i l.positions;
    }

abbrev pub add_totals : Label → Position → ℤ → Totals → Totals
add_totals i p per_share t = record {
  instruments = t.instruments ++ i ∷ [];
  settlement = t.settlement +ℤ per_share *ℤ p.quantity *ℤ p.contract.multiplier;
  realized =
      t.realized +ℤ (per_share -ℤ pos p.average_entry_price) *ℤ p.quantity *ℤ p.contract.multiplier;
}

-- One round of the loop over the positions, on the settlement given for the instrument.
unfoldable pub expire_position :
    Day → ExpirationPolicy → Label → Position → ℤ → Totals → Action Totals
expire_position day policy i p given t l =
    let per_share = if is_do_not_exercise policy then pos 0 else given in
    if ltb day p.contract.expiration
    then (ok t, l)
    else if ltb_ℤ given (pos 0)
    then (err Error.negative_settlement, l)
    else (ok (add_totals i p per_share t), close_position i p per_share l)

unfoldable pub expire_positions :
    Day → ExpirationPolicy → Dict ℤ → Dict Position → Totals → Action Totals
expire_positions day policy settlements [] t = pure t
expire_positions day policy settlements ((i, p) ∷ rest) t = do
  t' ← expire_position day policy i p (get_or (lookup i settlements) (pos 0)) t
  expire_positions day policy settlements rest t'

abbrev pub no_totals : Totals
no_totals = record { instruments = []; settlement = pos 0; realized = pos 0 }

-- `expire` below its check of the date.
unfoldable pub expire_due : Context → Day → ExpirationPolicy → Dict ℤ → Action ExpirationResult
expire_due x day policy settlements l =
    let started = record l { orders = expire_orders x day l.orders } in
    (do
      t ← expire_positions day policy settlements l.positions no_totals
      pure (record {
        processed_at = x.now;
        expiration_date = day;
        expired_order_ids = due_ids x day l.orders;
        expired_instrument_ids = t.instruments;
        cash_settlement = t.settlement;
        realized_pnl = t.realized;
        policy = policy;
      }))
      started

unfoldable pub expire : Context → Option Day → ExpirationPolicy → Dict ℤ → Action ExpirationResult
expire x on_date policy settlements =
    let day = get_or on_date (x.market_date x.now) in
    if ltb (x.market_date x.now) day
    then raise Error.future_expiration
    else expire_due x day policy settlements

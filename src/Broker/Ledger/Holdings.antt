-- ===== src/Broker/Ledger/Holdings.antt =====
-- app/broker/shadow_ledger.py: what open orders reserve, and how positions change.
use sentry.Prelude.{
  ℕ, ◌+◌, ◌-◌, ◌*◌, not, ◌&&◌, Option, none, some, [], ◌==◌, if◌then◌else◌, length,
}
use sentry.Prelude.Decimal.{quotient}
use sentry.Prelude.Int.{ℤ, pos, ◌+ℤ◌, ◌-ℤ◌, ◌*ℤ◌, max_ℤ, min_ℤ}
use sentry.Prelude.Dict.{Dict, lookup, insert, erase, sum_values}
use sentry.Domain.Enums.{is_buy}
use sentry.Domain.Market.{Label, Money, OptionQuote, OptionContract}
use sentry.Domain.Trade.{TradeProposal}
use sentry.Domain.Order.{BrokerOrder, BrokerCommandIntent, Position}
use sentry.Broker.Ledger.State.{ShadowLedger, LedgerOrder, Context, is_open}

abbrev pub get_or {ℓ} : {A : Type ℓ} → Option A → A → A
get_or none d = d
get_or (some a) d = a

abbrev pub remaining_quantity : BrokerOrder → ℕ
remaining_quantity o = o.quantity - o.filled_quantity

-- One term of the sum in `_reserved_buying_power`.
unfoldable pub buy_reserve : BrokerOrder → ℕ
buy_reserve o =
    if is_open o.state && is_buy o.side
    then remaining_quantity o * o.limit_price * o.contract.multiplier
    else 0

unfoldable pub reserved_buying_power : Dict LedgerOrder → ℕ
reserved_buying_power = sum_values (λ item. buy_reserve item.published)

-- The property `buying_power`.
unfoldable pub buying_power : ShadowLedger → ℤ
buying_power l = l.cash -ℤ pos (reserved_buying_power l.orders)

-- One term of the sum in `_available_position_quantity`.
unfoldable pub sell_reserve : Label → BrokerOrder → ℕ
sell_reserve i o =
    if is_open o.state && not (is_buy o.side) && o.contract.instrument_id == i
    then remaining_quantity o
    else 0

unfoldable pub reserved_quantity : Label → Dict LedgerOrder → ℕ
reserved_quantity i = sum_values (λ item. sell_reserve i item.published)

abbrev pub position_quantity : Option Position → ℕ
position_quantity none = 0
position_quantity (some p) = p.quantity

unfoldable pub owned_quantity : Label → Dict Position → ℕ
owned_quantity i positions = position_quantity (lookup i positions)

-- `_available_position_quantity`
unfoldable pub available_position_quantity : Label → ShadowLedger → ℤ
available_position_quantity i l =
    pos (owned_quantity i l.positions) -ℤ pos (reserved_quantity i l.orders)

-- (liquidation - entry) * quantity * multiplier
unfoldable pub profit : Money → Money → ℕ → ℕ → ℤ
profit price entry quantity multiplier = (pos price -ℤ pos entry) *ℤ quantity *ℤ multiplier

-- The body of `_mark_position` at a position that is there.
unfoldable pub marked : OptionQuote → Position → Position
marked q p =
    let unrealized = profit q.bid p.average_entry_price p.quantity p.contract.multiplier in
    record p {
      current_bid = q.bid;
      current_ask = q.ask;
      best_unrealized_pnl = max_ℤ p.best_unrealized_pnl unrealized;
      worst_unrealized_pnl = min_ℤ p.worst_unrealized_pnl unrealized;
    }

abbrev pub mark_found : OptionQuote → Option Position → Dict Position → Dict Position
mark_found q none positions = positions
mark_found q (some p) positions = insert q.contract.instrument_id (marked q p) positions

-- `_mark_position`
unfoldable pub mark_position : OptionQuote → Dict Position → Dict Position
mark_position q positions = mark_found q (lookup q.contract.instrument_id positions) positions

-- The position that a first fill opens.
abbrev pub first_position :
    Context
    → ShadowLedger
    → Option TradeProposal
    → BrokerCommandIntent
    → OptionContract
    → OptionQuote
    → ℕ
    → Money
    → Position
first_position x l proposal command contract q quantity price =
    let unrealized = profit q.bid price quantity contract.multiplier in
    record {
      position_id = x.position_id (length l.fills);
      environment = l.environment;
      contract = contract;
      quantity = quantity;
      average_entry_price = price;
      current_bid = q.bid;
      current_ask = q.ask;
      realized_pnl = pos 0;
      best_unrealized_pnl = unrealized;
      worst_unrealized_pnl = unrealized;
      thesis_id = elim proposal [ none ↦ command.proposal_id | some p ↦ p.packet_id ];
      invalidation_conditions = elim proposal [ none ↦ [] | some p ↦ p.invalidation_conditions ];
      exit_policy_version = elim proposal [ none ↦ 0 | some p ↦ p.policy_version ];
    }

-- `_apply_entry_position`
abbrev pub entry_found :
    Context
    → BrokerCommandIntent
    → OptionContract
    → OptionQuote
    → ℕ
    → Money
    → Option Position
    → ShadowLedger
    → ShadowLedger
entry_found x command contract q quantity price none l = record l {
  positions =
      insert contract.instrument_id
        (first_position x l (lookup command.proposal_id l.proposals) command contract q quantity
          price)
        l.positions;
}
entry_found x command contract q quantity price (some p) l =
    let total = p.quantity + quantity in
    let average = quotient (p.average_entry_price * p.quantity + price * quantity) total in
    let added : Position = record p {
      quantity = total;
      average_entry_price = average;
      current_bid = q.bid;
      current_ask = q.ask;
    } in
    record l { positions = mark_position q (insert contract.instrument_id added l.positions) }

unfoldable pub apply_entry_position :
    Context
    → BrokerCommandIntent
    → OptionContract
    → OptionQuote
    → ℕ
    → Money
    → ShadowLedger
    → ShadowLedger
apply_entry_position x command contract q quantity price l =
    entry_found x command contract q quantity price (lookup contract.instrument_id l.positions) l

-- `_apply_exit_position` at a position that covers the sale.
abbrev pub exit_found : OptionContract → ℕ → Money → Position → ShadowLedger → ShadowLedger
exit_found contract quantity price p l =
    let i = contract.instrument_id in
    let pnl = profit price p.average_entry_price quantity contract.multiplier in
    let closed = get_or (lookup i l.closed_realized_pnl) (pos 0) +ℤ p.realized_pnl +ℤ pnl in
    if p.quantity - quantity == 0
    then record l {
      realized_pnl = l.realized_pnl +ℤ pnl;
      closed_realized_pnl = insert i closed l.closed_realized_pnl;
      positions = erase i l.positions;
    }
    else record l {
      realized_pnl = l.realized_pnl +ℤ pnl;
      positions =
          insert i
            (record p { quantity = p.quantity - quantity; realized_pnl = p.realized_pnl +ℤ pnl })
            l.positions;
    }

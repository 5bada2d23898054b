-- ===== src/Broker/Ledger/Snapshot.antt =====
-- app/broker/shadow_ledger.py: `LedgerSnapshot`, `export_state`, `restore_state` and
-- `_apply_snapshot`.
pub mod Restoring
mod Tests
use sentry.Prelude.{
  ℕ, Bool, true, not, ◌&&◌, ◌||◌, Option, none, some, List, [], ◌∷◌, map, ltb, ◌==◌, if◌then◌else◌,
  all, elem, is_empty,
}
use sentry.Prelude.Int.{ℤ}
use sentry.Prelude.Dict.{Dict, insert}
use sentry.Domain.Enums.{ExecutionEnvironment, AccountKind, same_environment, same_kind}
use sentry.Domain.Market.{Uuid, Label, Time, Money, OptionQuote}
use sentry.Domain.Trade.{TradeProposal}
use sentry.Domain.Order.{BrokerCommandIntent, Fill, Position}
use sentry.Broker.Ledger.State.{ShadowLedger, LedgerOrder, DepositRecord, Warning, Context, new}
use sentry.Broker.Ledger.Audit.{discrepancies}

pub record LedgerSnapshot : Type 0 where
  pub recorded_at : Time
  pub environment : ExecutionEnvironment
  pub account_kind : AccountKind
  pub namespace : Label
  pub initial_cash : Money
  pub cash : ℤ
  pub fill_model_version : Label
  pub orders : List LedgerOrder
  pub idempotency_order_ids : Dict Uuid
  pub positions : List Position
  pub fills : List Fill
  pub quotes : List OptionQuote
  pub proposals : List TradeProposal
  pub rejection_reasons : Dict (List Warning)
  pub deposits : List DepositRecord
  pub entry_orders_by_date : Dict (List Uuid)
  pub realized_pnl : ℤ
  pub closed_realized_pnl : Dict ℤ
  pub recorded_commands : List BrokerCommandIntent

module _ {V : Type 0} where
  -- `tuple(d.values())`
  unfoldable pub values : Dict V → List V
  values [] = []
  values ((_, v) ∷ rest) = v ∷ values rest

  -- `{key(item): item for item in items}`, written into a dictionary one by one
  unfoldable pub index_into : (V → ℕ) → Dict V → List V → Dict V
  index_into key d [] = d
  index_into key d (item ∷ rest) = index_into key (insert (key item) item d) rest

abbrev pub order_key : LedgerOrder → Uuid
order_key item = item.published.order_id

abbrev pub position_key : Position → Label
position_key p = p.contract.instrument_id

abbrev pub quote_key : OptionQuote → Label
quote_key q = q.contract.instrument_id

abbrev pub proposal_key : TradeProposal → Uuid
proposal_key p = p.proposal_id

-- `sort` is `sorted(order_ids, key=str)`.
unfoldable pub sort_dates : (List Uuid → List Uuid) → Dict (List Uuid) → Dict (List Uuid)
sort_dates sort [] = []
sort_dates sort ((day, ids) ∷ rest) = (day, sort ids) ∷ sort_dates sort rest

unfoldable pub export_state :
    (List Uuid → List Uuid) → Context → List BrokerCommandIntent → ShadowLedger → LedgerSnapshot
export_state sort x recorded_commands l = record {
  recorded_at = x.now;
  environment = l.environment;
  account_kind = l.account_kind;
  namespace = l.namespace;
  initial_cash = l.initial_cash;
  cash = l.cash;
  fill_model_version = x.fill_model.version;
  orders = values l.orders;
  idempotency_order_ids = l.order_by_idempotency;
  positions = values l.positions;
  fills = l.fills;
  quotes = values l.quotes;
  proposals = values l.proposals;
  rejection_reasons = l.rejection_reasons;
  deposits = l.deposits;
  entry_orders_by_date = sort_dates sort l.entry_orders_by_date;
  realized_pnl = l.realized_pnl;
  closed_realized_pnl = l.closed_realized_pnl;
  recorded_commands = recorded_commands;
}

-- `set(order_ids)`: each identifier once.
unfoldable pub to_set : List Uuid → List Uuid
to_set [] = []
to_set (id ∷ ids) = let rest = to_set ids in if elem id ids then rest else id ∷ rest

-- The sets of `entry_orders_by_date`.
unfoldable pub set_dates : Dict (List Uuid) → Dict (List Uuid)
unfolding to_set
set_dates [] = []
set_dates ((day, ids) ∷ rest) = (day, to_set ids) ∷ set_dates rest

-- `_apply_snapshot`
unfoldable pub apply_snapshot : LedgerSnapshot → ShadowLedger → ShadowLedger
unfolding set_dates
apply_snapshot s l = record l {
  cash = s.cash;
  orders = index_into order_key [] s.orders;
  order_by_idempotency = s.idempotency_order_ids;
  positions = index_into position_key [] s.positions;
  fills = s.fills;
  quotes = index_into quote_key [] s.quotes;
  proposals = index_into proposal_key [] s.proposals;
  rejection_reasons = s.rejection_reasons;
  deposits = s.deposits;
  entry_orders_by_date = set_dates s.entry_orders_by_date;
  realized_pnl = s.realized_pnl;
  closed_realized_pnl = s.closed_realized_pnl;
}

-- The raises of `restore_state`, in order.
pub data RestoreError : Type 0 where
  identity_changed initial_cash_changed fill_model_changed newer_than_clock : RestoreError
  duplicate_orders absent_order uncorrelated_order foreign_command foreign_position : RestoreError
  duplicate_positions absent_fill_order future_quote ledger_invalid : RestoreError

-- No two items have the same key.
unfoldable pub distinct : List ℕ → Bool
distinct [] = true
distinct (k ∷ rest) = not (elem k rest) && distinct rest

abbrev pub correlated : ShadowLedger → LedgerOrder → Bool
correlated l item =
    same_environment item.published.environment l.environment
    && same_environment item.command.environment l.environment
    && item.command.namespace == l.namespace
    && item.published.intent_id == item.command.order_intent_id

abbrev pub own_command : ShadowLedger → BrokerCommandIntent → Bool
own_command l c = same_environment c.environment l.environment && c.namespace == l.namespace

abbrev pub references : List Uuid → Dict Uuid → Bool
references ids [] = true
references ids ((_, id) ∷ rest) = elem id ids && references ids rest

abbrev pub known_quote : LedgerSnapshot → OptionQuote → Bool
known_quote s q = not (ltb s.recorded_at q.observed_at || ltb s.recorded_at q.effective_at)

-- The new ledger that `restore_state` tries the snapshot on.
abbrev pub fresh : ShadowLedger → ShadowLedger
fresh l = record (new l.initial_cash l.account_kind l.max_quote_age l.namespace) {
  environment = l.environment;
}

unfoldable pub restore_error : Context → LedgerSnapshot → ShadowLedger → Option RestoreError
restore_error x s l =
    let ids = map order_key s.orders in
    if not (same_environment s.environment l.environment)
      || not (same_kind s.account_kind l.account_kind)
      || not (s.namespace == l.namespace)
    then some RestoreError.identity_changed
    else if not (s.initial_cash == l.initial_cash)
    then some RestoreError.initial_cash_changed
    else if not (s.fill_model_version == x.fill_model.version)
    then some RestoreError.fill_model_changed
    else if ltb x.now s.recorded_at
    then some RestoreError.newer_than_clock
    else if not (distinct ids)
    then some RestoreError.duplicate_orders
    else if not (references ids s.idempotency_order_ids)
    then some RestoreError.absent_order
    else if not (all (correlated l) s.orders)
    then some RestoreError.uncorrelated_order
    else if not (all (own_command l) s.recorded_commands)
    then some RestoreError.foreign_command
    else if not (all (λ p. same_environment p.environment l.environment) s.positions)
    then some RestoreError.foreign_position
    else if not (distinct (map position_key s.positions))
    then some RestoreError.duplicate_positions
    else if not (all (λ f. elem f.order_id ids) s.fills)
    then some RestoreError.absent_fill_order
    else if not (all (known_quote s) s.quotes)
    then some RestoreError.future_quote
    else if not (is_empty (discrepancies (apply_snapshot s (fresh l))))
    then some RestoreError.ledger_invalid
    else none

-- `restore_state`: the error that is raised, and the ledger afterwards.
unfoldable pub restore_state :
    Context → LedgerSnapshot → ShadowLedger → Option RestoreError × ShadowLedger
restore_state x s l = elim (restore_error x s l) [
  | some e ↦ (some e, l)
  | none ↦ (none, apply_snapshot s l)
]

-- ===== src/Domain/Market.antt =====
-- app/domain/models.py, market data: contracts, quotes and account snapshots. Identifiers and texts
-- that the program only compares are numbers; a timestamp is microseconds since the epoch, UTC; a
-- Decimal is a count of 10^-8, which the header of the library explains.
use sentry.Prelude.{ℕ, Bool, not, ◌&&◌, Option, ltb, ◌==◌}
use sentry.Prelude.Int.{ℤ}
use sentry.Domain.Enums.{
  OptionType, same_type, ExecutionEnvironment, is_live, AccountKind, is_broker_observed,
}

abbrev pub Uuid : Type 0
Uuid = ℕ

abbrev pub Label : Type 0
Label = ℕ

abbrev pub Time : Type 0
Time = ℕ

abbrev pub Day : Type 0
Day = ℕ

abbrev pub Money : Type 0
Money = ℕ

-- Decimal("1"), in units of the grid.
abbrev pub unit : ℕ
unit = 100000000

pub record OptionContract : Type 0 where
  pub instrument_id : Label
  pub symbol : Label
  pub option_type : OptionType
  pub strike : Money
  pub expiration : Day
  pub multiplier : ℕ

-- `==` of two contracts: field by field.
abbrev pub same_contract : OptionContract → OptionContract → Bool
same_contract a b =
    a.instrument_id == b.instrument_id
    && a.symbol == b.symbol
    && same_type a.option_type b.option_type
    && a.strike == b.strike
    && a.expiration == b.expiration
    && a.multiplier == b.multiplier

-- `OptionQuote`, with the fields of its `ProviderMetadata`.
pub record OptionQuote : Type 0 where
  pub snapshot_id : Uuid
  pub contract : OptionContract
  pub bid : Money
  pub ask : Money
  pub last : Option Money
  pub mark : Option Money
  pub volume : Option ℕ
  pub open_interest : Option ℕ
  pub implied_volatility : Option ℕ
  pub delta : Option ℤ
  pub bid_size : Option ℕ
  pub ask_size : Option ℕ
  pub provider : Label
  pub capability_version : Label
  pub observed_at : Time
  pub effective_at : Time
  pub source_id : Option Label

-- `OptionQuote.valid_market`: the validator raises where this fails.
abbrev pub valid_market : OptionQuote → Bool
valid_market q = not (ltb 0 q.ask && ltb q.ask q.bid)

pub record AccountSnapshot : Type 0 where
  pub snapshot_id : Uuid
  pub environment : ExecutionEnvironment
  pub account_kind : AccountKind
  pub cash : Money
  pub buying_power : Money
  pub open_option_risk : Money
  pub open_positions : ℕ
  pub new_entries_today : ℕ
  pub as_of : Time
  pub is_authenticated : Bool
  pub state_known : Bool

-- `AccountSnapshot.kind_matches_environment`.
abbrev pub kind_matches_environment : AccountSnapshot → Bool
kind_matches_environment a = not (is_live a.environment && not (is_broker_observed a.account_kind))

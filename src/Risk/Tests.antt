-- ===== src/Risk/Tests.antt =====
-- app/risk/engine.py on a concrete proposal.
use sentry.Prelude.{◌+◌, ◌≡◌, ◌↔◌, refl, true, ◌||◌, none, some, [], ◌∷◌, if◌then◌else◌}
use sentry.Domain.Enums.{ExecutionEnvironment, AccountKind, OptionType, OrderSide, is_buy}
use sentry.Domain.Market.{OptionContract, OptionQuote, AccountSnapshot}
use sentry.Domain.Trade.{TradeProposal, consistent_result}
use sentry.Risk.Engine.{RiskConfig, RiskEngine, RiskRule, evaluate}
use sentry.Risk.Admission.{IsCurrent, IsWithinLimits, evaluate-IsWithinLimits, evaluate-exit}
use sentry.Risk.Report.{times, is_identity, evaluate-reports}

abbrev pub config : RiskConfig
config = record {
  version = 2;
  allowed_instruments = OptionType.call ∷ OptionType.put ∷ [];
  maximum_contracts_per_position = 2;
  max_new_trade_premium_dollars = 700;
  max_total_open_option_risk_dollars = 900;
  max_open_positions = 3;
  max_new_entries_per_day = 1;
  daily_new_entries_enabled = true;
  require_nonzero_bid = true;
  starting_minimum_open_interest = 5;
  starting_minimum_option_volume = 5;
  starting_maximum_bid_ask_percent = 6000000000;
}

abbrev pub engine : RiskEngine
engine = record {
  config = config;
  maximum_quote_age = 30;
  maximum_account_age = 30;
  live_capital_ceiling = none;
}

abbrev contract : OptionContract
contract = record {
  instrument_id = 3;
  symbol = 1;
  option_type = OptionType.call;
  strike = 50;
  expiration = 9;
  multiplier = 100;
}

abbrev pub quote : OptionQuote
quote = record {
  snapshot_id = 20;
  contract = contract;
  bid = 1;
  ask = 2;
  last = none;
  mark = none;
  volume = some 8;
  open_interest = some 9;
  implied_volatility = none;
  delta = none;
  bid_size = none;
  ask_size = some 10;
  provider = 1;
  capability_version = 1;
  source_id = none;
  observed_at = 95;
  effective_at = 95;
}

abbrev pub entry : TradeProposal
entry = record {
  proposal_id = 13;
  environment = ExecutionEnvironment.demo;
  namespace = 1;
  packet_id = 31;
  contract = contract;
  side = OrderSide.buy_to_open;
  quantity = 2;
  limit_price = 3;
  limit_decimals = 2;
  quote_snapshot_id = 20;
  quote_as_of = 95;
  policy_version = 1;
  risk_config_version = 2;
  invalidation_conditions = [];
}

abbrev exit : TradeProposal
exit = record entry { side = OrderSide.sell_to_close }

abbrev pub account : AccountSnapshot
account = record {
  snapshot_id = 40;
  environment = ExecutionEnvironment.demo;
  account_kind = AccountKind.shadow;
  cash = 1000;
  buying_power = 1000;
  open_option_risk = 0;
  open_positions = 0;
  new_entries_today = 0;
  as_of = 100;
  is_authenticated = true;
  state_known = true;
}

entry_allowed : (evaluate engine 100 entry account quote).allowed ≡ true
unfolding evaluate sentry.Risk.Engine.decide sentry.Risk.Engine.failed
    sentry.Risk.Engine.identity_outcomes sentry.Risk.Engine.entry_outcomes
    sentry.Domain.Trade.max_loss
entry_allowed = refl

evaluate-IsWithinLimits_example :
    ((evaluate engine 100 entry account quote).allowed ≡ true)
    ↔ (IsCurrent engine 100 entry account quote × IsWithinLimits engine entry account quote)
evaluate-IsWithinLimits_example = evaluate-IsWithinLimits engine 100 entry account quote refl

evaluate-exit_example :
    (((evaluate engine 100 exit account quote).allowed ≡ true)
      ↔ IsCurrent engine 100 exit account quote)
    × ((evaluate engine 100 exit account quote).resulting_aggregate_risk ≡ account.open_option_risk)
evaluate-exit_example = evaluate-exit engine 100 exit account quote refl

evaluate-reports_example :
    (consistent_result (evaluate engine 100 entry account quote) ≡ true)
    × ((r : RiskRule)
        → times r (evaluate engine 100 entry account quote).failed_rules
            + times r (evaluate engine 100 entry account quote).passed_rules
          ≡ (if is_buy entry.side || is_identity r then 1 else 0))
evaluate-reports_example = evaluate-reports engine 100 entry account quote

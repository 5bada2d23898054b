-- ===== src/Broker/FillModel/Tests.antt =====
-- app/broker/fill_models.py on a concrete order and quote.
use sentry.Prelude.{◌≤◌, ◌≡◌, refl, true, none, some, arith}
use sentry.Domain.Enums.{ExecutionEnvironment, OrderState, OrderSide, OptionType}
use sentry.Domain.Market.{OptionQuote, OptionContract}
use sentry.Domain.Order.{BrokerOrder}
use sentry.Broker.FillModel.{Conservative, should_fill, optimistic_evaluate, conservative_evaluate}
use sentry.Broker.FillModel.Lawful.{IsLawful, evaluate-IsLawful}
use sentry.Broker.FillModel.Refines.{conservative-refines}

abbrev contract : OptionContract
contract = record {
  instrument_id = 3;
  symbol = 1;
  option_type = OptionType.put;
  strike = 50;
  expiration = 9;
  multiplier = 100;
}

abbrev sale : BrokerOrder
sale = record {
  order_id = 1;
  broker_order_id = none;
  intent_id = 2;
  environment = ExecutionEnvironment.demo;
  state = OrderState.opened;
  contract = contract;
  side = OrderSide.sell_to_close;
  quantity = 4;
  filled_quantity = 0;
  limit_price = 20;
  average_fill_price = none;
  submitted_at = some 100;
}

abbrev better_bid : OptionQuote
better_bid = record {
  snapshot_id = 21;
  contract = contract;
  bid = 25;
  ask = 30;
  last = none;
  mark = none;
  volume = none;
  open_interest = none;
  implied_volatility = none;
  delta = none;
  bid_size = some 20;
  ask_size = none;
  provider = 1;
  capability_version = 1;
  source_id = none;
  observed_at = 110;
  effective_at = 110;
}

-- The defaults of the source: 0.30 and 0.50.
abbrev settings : Conservative
settings = record { touch_fill_probability = 30000000; displayed_size_participation = 50000000 }

evaluate-IsLawful_example :
    IsLawful sale 4 (optimistic_evaluate 5 sale better_bid 4)
    × IsLawful sale 4 (conservative_evaluate settings 5 sale better_bid 4)
evaluate-IsLawful_example = evaluate-IsLawful settings 5 sale better_bid 4 (omega arith)

conservative_fills : should_fill (conservative_evaluate settings 5 sale better_bid 4) ≡ true
unfolding conservative_evaluate
conservative_fills = refl

conservative-refines_example :
    (should_fill (optimistic_evaluate 6 sale better_bid 4) ≡ true)
    × ((optimistic_evaluate 6 sale better_bid 4).price
        ≡ (conservative_evaluate settings 5 sale better_bid 4).price)
    × ((conservative_evaluate settings 5 sale better_bid 4).quantity
        ≤ (optimistic_evaluate 6 sale better_bid 4).quantity)
conservative-refines_example =
    conservative-refines settings 5 6 sale better_bid 4 conservative_fills

-- ===== src/Positions/Tests.antt =====
-- app/positions/manager.py on one position.
use sentry.Prelude.{◌≡◌, refl, true, false, none, some, List, [], ◌∷◌, All}
use sentry.Prelude.Int.{pos, negsuc}
use sentry.Domain.Enums.{ExecutionEnvironment}
use sentry.Domain.Market.{OptionQuote}
use sentry.Domain.Order.{Position}
use sentry.Risk.Tests.{quote}
use sentry.Broker.Ledger.Holdings.{marked}
use sentry.Positions.Manager.{
  ExitPolicy, Calendar, Signals, ExitDecision, ExitTrigger, mark, evaluate_exit, decide_exit,
}
use sentry.Positions.Exits.{IsExit, evaluate_exit-limit_price}
use sentry.Positions.Marks.{mark_all, Brackets, mark-marked, mark_all-Brackets}

abbrev holding : Position
holding = record {
  position_id = 50;
  environment = ExecutionEnvironment.demo;
  contract = quote.contract;
  quantity = 2;
  average_entry_price = 3;
  current_bid = 3;
  current_ask = 4;
  realized_pnl = pos 0;
  best_unrealized_pnl = pos 0;
  worst_unrealized_pnl = pos 0;
  thesis_id = 31;
  invalidation_conditions = 7 ∷ [];
  exit_policy_version = 1;
}

-- The source's defaults: half won, 35 percent lost, one day, a spread of 40 percent, two minutes.
abbrev policy : ExitPolicy
policy = record {
  version = 1;
  profit_target_fraction = 50000000;
  loss_threshold_fraction = 35000000;
  sell_to_close_days_before_expiration = 1;
  maximum_bid_ask_percent = 4000000000;
  end_of_day_exit = false;
  maximum_quote_age = 120000000;
}

abbrev calendar : Calendar
calendar = record { local_date = λ t. 5; configured_cutoff = λ t. t; session_close = λ t. none }

abbrev quiet : Signals
quiet = record {
  invalidated_conditions = [];
  catalyst_failed = false;
  hard_portfolio_emergency = false;
}

abbrev emergency : Signals
emergency = record quiet { hard_portfolio_emergency = true }

-- The bid has fallen from 3 to 1, and the spread is half of the ask.
abbrev stop_loss : ExitDecision
stop_loss = decide_exit policy calendar 100 holding quote quiet

stop_loss_triggers :
    stop_loss.triggers ≡ ExitTrigger.loss_threshold ∷ ExitTrigger.liquidity_deterioration ∷ []
unfolding decide_exit sentry.Positions.Manager.exit_triggers sentry.Positions.Manager.target_reached
    sentry.Prelude.Int.◌*ℤ◌ sentry.Positions.Manager.pnl sentry.Prelude.Int.◌-ℤ◌
    sentry.Positions.Manager.loss_reached sentry.Prelude.Int.◌+ℤ◌
    sentry.Positions.Manager.liquidity_poor
stop_loss_triggers = refl

stop_loss_decided : evaluate_exit policy calendar 100 holding quote quiet ≡ some stop_loss
unfolding evaluate_exit
stop_loss_decided = refl

evaluate_exit-limit_price_example : IsExit policy calendar 100 holding quote quiet stop_loss
evaluate_exit-limit_price_example =
    evaluate_exit-limit_price policy calendar 100 holding quote quiet stop_loss_decided

mark-marked_example : mark holding quote ≡ some (marked quote holding)
mark-marked_example = mark-marked holding quote refl

abbrev seen : List OptionQuote
seen = quote ∷ record quote { bid = 9 } ∷ quote ∷ []

abbrev after : Position
after = record holding {
  current_bid = 1;
  current_ask = 2;
  best_unrealized_pnl = pos 1200;
  worst_unrealized_pnl = negsuc 399;
}

seen_marked : mark_all seen holding ≡ some after
unfolding mark_all mark sentry.Positions.Manager.pnl sentry.Prelude.Int.◌*ℤ◌ sentry.Prelude.Int.◌-ℤ◌
seen_marked = refl

mark_all-Brackets_example : All (Brackets after) seen
mark_all-Brackets_example = mark_all-Brackets seen holding seen_marked

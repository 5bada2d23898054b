-- ===== src/Broker/Ledger/Replay/Tests.antt =====
-- app/broker/shadow_ledger.py: one quote, observed twice.
use sentry.Prelude.{◌≡◌, refl, [], ◌∷◌, arith}
use sentry.Domain.Order.{Fill}
use sentry.Broker.Ledger.State.{ok}
use sentry.Broker.Ledger.Quotes.{observe_quote}
use sentry.Broker.Ledger.Replay.{observe_quote-replay}
use sentry.Broker.Ledger.Tests.{at_time, quote_at, placed}

abbrev purchase_fill : Fill
purchase_fill = record {
  fill_id = 0;
  created_at = 120;
  order_id = 112;
  quantity = 2;
  price = 2;
  market_event_id = 21;
  deterministic_seed = 7;
}

first_fills : (observe_quote (at_time 120) (quote_at 21 110) placed).0 ≡ ok (purchase_fill ∷ [])
unfolding observe_quote sentry.Broker.Ledger.History.run sentry.Broker.Ledger.Orders.submit
    sentry.Broker.Ledger.State.new sentry.Broker.Ledger.History.apply
    sentry.Broker.Ledger.Orders.command_error sentry.Broker.Ledger.Orders.submit_new
    sentry.Broker.Ledger.Orders.store_submission sentry.Broker.Ledger.Orders.submit_reasons
    sentry.Broker.Ledger.Orders.duplicate_order sentry.Broker.Ledger.Holdings.buying_power
    sentry.Prelude.Int.◌-ℤ◌ sentry.Broker.Ledger.Holdings.reserved_buying_power
    sentry.Broker.Ledger.Orders.submitted_order sentry.Broker.Ledger.Quotes.accept_quote
    sentry.Broker.Ledger.Quotes.fill_loop sentry.Broker.Ledger.Quotes.fill_at
    sentry.Broker.Ledger.Quotes.fill_order sentry.Broker.FillModel.optimistic_evaluate
    sentry.Broker.Ledger.Fills.apply_fill sentry.Broker.Ledger.Fills.fill_error
    sentry.Broker.Ledger.Fills.publish sentry.Broker.Ledger.Fills.settle
    sentry.Broker.Ledger.Fills.settle_buy sentry.Broker.Ledger.Holdings.apply_entry_position
    sentry.Broker.Ledger.Holdings.mark_position
first_fills = refl

observe_quote-replay_example :
    observe_quote
      (at_time 125)
      (quote_at 21 110)
      (observe_quote (at_time 120) (quote_at 21 110) placed).1
    ≡ (ok [], (observe_quote (at_time 120) (quote_at 21 110) placed).1)
observe_quote-replay_example =
    observe_quote-replay (at_time 120) 125 (quote_at 21 110) placed (omega arith) first_fills

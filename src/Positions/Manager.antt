-- ===== src/Positions/Manager.antt =====
-- app/positions/manager.py: `ExitPolicy` and `PositionManager`. The fraction of the cost that is won or
-- lost is compared multiplied out.
use sentry.Prelude.{
  ℕ, ◌+◌, ◌-◌, ◌*◌, Bool, true, false, not, ◌&&◌, ◌||◌, Option, none, some, List, [], ◌∷◌, min, leb,
  ltb, any, elem, is_empty, ◌==◌, if◌then◌else◌,
}
use sentry.Prelude.Int.{ℤ, pos, ◌+ℤ◌, ◌-ℤ◌, ◌*ℤ◌, leb_ℤ, max_ℤ, min_ℤ}
use sentry.Domain.Enums.{OrderSide}
use sentry.Domain.Market.{Uuid, Label, Time, Day, Money, OptionQuote, same_contract, unit}
use sentry.Domain.Order.{Position}

pub data ExitTrigger : Type 0 where
  profit_target loss_threshold thesis_invalidated catalyst_failed : ExitTrigger
  dte_cutoff end_of_day liquidity_deterioration hard_portfolio_emergency : ExitTrigger

pub record ExitPolicy : Type 0 where
  pub version : Label
  pub profit_target_fraction : Money
  pub loss_threshold_fraction : Money
  pub sell_to_close_days_before_expiration : ℕ
  pub maximum_bid_ask_percent : Money
  pub end_of_day_exit : Bool
  pub maximum_quote_age : ℕ

-- What the standard library and app/clock/market_calendar.py say of a time: the date in the policy's
-- time zone, the policy's cutoff on that date, and the regular close of the session of that day.
pub record Calendar : Type 0 where
  pub local_date : Time → Day
  pub configured_cutoff : Time → Time
  pub session_close : Time → Option Time

-- The part of `ExitDecision` that is decided; its return and its text are derived from it.
pub record ExitDecision : Type 0 where
  pub position_id : Uuid
  pub evaluated_at : Time
  pub should_exit : Bool
  pub executable : Bool
  pub side : OrderSide
  pub quantity : ℕ
  pub limit_price : Option Money
  pub triggers : List ExitTrigger
  pub unrealized_pnl : ℤ
  pub quote_snapshot_id : Uuid
  pub policy_version : Label

-- `_pnl`
unfoldable pub pnl : Position → Money → ℤ
pnl p price = (pos price -ℤ pos p.average_entry_price) *ℤ p.quantity *ℤ p.contract.multiplier

-- `mark`; `none` stands for the `ValueError` of `_require_contract`.
unfoldable pub mark : Position → OptionQuote → Option Position
mark p q =
    if not (same_contract p.contract q.contract)
    then none
    else some (record p {
      current_bid = q.bid;
      current_ask = q.ask;
      best_unrealized_pnl = max_ℤ p.best_unrealized_pnl (pnl p q.bid);
      worst_unrealized_pnl = min_ℤ p.worst_unrealized_pnl (pnl p q.bid);
    })

-- What a call of `evaluate_exit` is given beside the position and the quote.
pub record Signals : Type 0 where
  pub invalidated_conditions : List Label
  pub catalyst_failed : Bool
  pub hard_portfolio_emergency : Bool

abbrev pub cost : Position → ℕ
cost p = p.average_entry_price * p.quantity * p.contract.multiplier

-- `return_fraction >= profit_target_fraction`
unfoldable pub target_reached : ExitPolicy → Position → OptionQuote → Bool
target_reached policy p q =
    if cost p == 0
    then leb policy.profit_target_fraction 0
    else leb_ℤ (pos (policy.profit_target_fraction * cost p)) (pnl p q.bid *ℤ unit)

-- `return_fraction <= -loss_threshold_fraction`
unfoldable pub loss_reached : ExitPolicy → Position → OptionQuote → Bool
loss_reached policy p q =
    if cost p == 0
    then leb policy.loss_threshold_fraction 0
    else leb_ℤ (pnl p q.bid *ℤ unit +ℤ pos (policy.loss_threshold_fraction * cost p)) (pos 0)

-- 15 minutes, in microseconds
abbrev pub close_buffer : ℕ
close_buffer = 900000000

abbrev pub past_cutoff : Calendar → Time → Option Time → Bool
past_cutoff c now none = false
past_cutoff c now (some close) = leb (min (c.configured_cutoff now) (close - close_buffer)) now

-- `quote.bid <= 0 or spread_percent > maximum_bid_ask_percent`
unfoldable pub liquidity_poor : ExitPolicy → OptionQuote → Bool
liquidity_poor policy q =
    leb q.bid 0
    || (if ltb 0 q.ask
        then ltb (policy.maximum_bid_ask_percent * q.ask) ((q.ask - q.bid) * 100 * unit)
        else true)

abbrev pub trigger_if : Bool → ExitTrigger → List ExitTrigger → List ExitTrigger
trigger_if true t rest = t ∷ rest
trigger_if false t rest = rest

unfoldable pub exit_triggers :
    ExitPolicy → Calendar → Time → Position → OptionQuote → Signals → List ExitTrigger
exit_triggers policy c now p q s =
    trigger_if (target_reached policy p q) ExitTrigger.profit_target (
      trigger_if (loss_reached policy p q) ExitTrigger.loss_threshold (
        trigger_if (any (λ i. elem i p.invalidation_conditions) s.invalidated_conditions)
          ExitTrigger.thesis_invalidated
          (trigger_if s.catalyst_failed ExitTrigger.catalyst_failed (
            trigger_if
              (leb p.contract.expiration
                (c.local_date now + policy.sell_to_close_days_before_expiration))
              ExitTrigger.dte_cutoff
              (trigger_if (policy.end_of_day_exit && past_cutoff c now (c.session_close now))
                ExitTrigger.end_of_day
                (trigger_if (liquidity_poor policy q) ExitTrigger.liquidity_deterioration (
                  trigger_if s.hard_portfolio_emergency ExitTrigger.hard_portfolio_emergency
                    [])))))))

abbrev pub quote_is_fresh : ExitPolicy → Time → OptionQuote → Bool
quote_is_fresh policy now q =
    leb q.observed_at now
    && leb (now - q.observed_at) policy.maximum_quote_age
    && leb q.effective_at q.observed_at

-- `evaluate_exit` below `_require_contract`.
unfoldable pub decide_exit :
    ExitPolicy → Calendar → Time → Position → OptionQuote → Signals → ExitDecision
decide_exit policy c now p q s =
    let triggers = exit_triggers policy c now p q s in
    let should = not (is_empty triggers) in
    let executable = should && quote_is_fresh policy now q && ltb 0 q.bid in
    record {
      position_id = p.position_id;
      evaluated_at = now;
      should_exit = should;
      executable = executable;
      side = OrderSide.sell_to_close;
      quantity = p.quantity;
      limit_price = if executable then some q.bid else none;
      triggers = triggers;
      unrealized_pnl = pnl p q.bid;
      quote_snapshot_id = q.snapshot_id;
      policy_version = policy.version;
    }

unfoldable pub evaluate_exit :
    ExitPolicy → Calendar → Time → Position → OptionQuote → Signals → Option ExitDecision
evaluate_exit policy c now p q s =
    if not (same_contract p.contract q.contract)
    then none
    else some (decide_exit policy c now p q s)

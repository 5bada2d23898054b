-- ===== src/Broker/FillModel.antt =====
-- app/broker/fill_models.py. The seed, a hash of the order, the quote and the model's version, is a
-- function that the models are given.
pub mod Lawful
pub mod Refines
mod Tests
use sentry.Prelude.{
  ℕ, ◌*◌, ◌/◌, ◌%◌, min, max, Bool, false, not, ◌&&◌, Option, none, some, ltb, leb, ◌==◌,
  if◌then◌else◌, is_some,
}
use sentry.Domain.Enums.{is_buy}
use sentry.Domain.Market.{Label, Money, OptionQuote, unit}
use sentry.Domain.Order.{BrokerOrder}

pub data FillReason : Type 0 where
  no_remaining buy_not_touched sell_not_touched touched_fully : FillReason
  not_reached size_zero gate_missed through_limit gate_accepted : FillReason

pub record FillDecision : Type 0 where
  pub quantity : ℕ
  pub price : Option Money
  pub deterministic_seed : ℕ
  pub reason : FillReason

-- The property `FillDecision.should_fill`.
abbrev pub should_fill : FillDecision → Bool
should_fill d = ltb 0 d.quantity && is_some d.price

-- The abstract class `FillModel`.
pub record FillModel : Type 0 where
  pub version : Label
  pub evaluate : BrokerOrder → OptionQuote → ℕ → FillDecision

abbrev pub refuse : ℕ → FillReason → FillDecision
refuse seed why = record { quantity = 0; price = none; deterministic_seed = seed; reason = why }

-- `quote.last is not None and test(quote.last)`
abbrev pub last_touch : Option Money → (Money → Bool) → Bool
last_touch none test = false
last_touch (some last) test = test last

-- The branches of `OptimisticFillModel.evaluate` below its first check: a buy, then a sell.
unfoldable pub optimistic_buy : BrokerOrder → OptionQuote → ℕ → ℕ → FillDecision
optimistic_buy o q remaining seed =
    let displayed = leb q.ask o.limit_price && ltb 0 q.ask in
    let last = last_touch q.last (λ last. leb last o.limit_price) in
    if not displayed && not last then refuse seed FillReason.buy_not_touched else record {
      quantity = remaining;
      price = some (if displayed then min o.limit_price q.ask else o.limit_price);
      deterministic_seed = seed;
      reason = FillReason.touched_fully;
    }

unfoldable pub optimistic_sell : BrokerOrder → OptionQuote → ℕ → ℕ → FillDecision
optimistic_sell o q remaining seed =
    let displayed = leb o.limit_price q.bid && ltb 0 q.bid in
    let last = last_touch q.last (λ last. leb o.limit_price last) in
    if not displayed && not last then refuse seed FillReason.sell_not_touched else record {
      quantity = remaining;
      price = some (if displayed then max o.limit_price q.bid else o.limit_price);
      deterministic_seed = seed;
      reason = FillReason.touched_fully;
    }

unfoldable pub optimistic_evaluate : ℕ → BrokerOrder → OptionQuote → ℕ → FillDecision
unfolding optimistic_buy optimistic_sell
optimistic_evaluate seed o q remaining =
    if leb remaining 0
    then refuse seed FillReason.no_remaining
    else if is_buy o.side
    then optimistic_buy o q remaining seed
    else optimistic_sell o q remaining seed

-- The two settings of `ConservativeFillModel`, on the grid of `unit`.
pub record Conservative : Type 0 where
  pub touch_fill_probability : Money
  pub displayed_size_participation : Money

-- `ConservativeFillModel.__init__`; `none` stands for its `ValueError`.
unfoldable pub new_conservative : Money → Money → Option Conservative
new_conservative touch participation =
    if not (leb touch unit)
    then none
    else if not (ltb 0 participation && leb participation unit)
    then none
    else some
        (record { touch_fill_probability = touch; displayed_size_participation = participation })

-- `sample >= touch_fill_probability`, where `sample` is a number of millionths.
abbrev pub queue_gate_missed : Conservative → ℕ → Bool
queue_gate_missed c seed = leb (c.touch_fill_probability * 1000000) (seed % 1000000 * unit)

-- Unknown liquidity is capped to one contract.
abbrev pub capped_quantity : Conservative → Option ℕ → ℕ → ℕ
capped_quantity c none remaining = min remaining 1
capped_quantity c (some displayed) remaining =
    min remaining (max 1 (displayed * c.displayed_size_participation / unit))

-- `displayed_size is not None and displayed_size <= 0`
abbrev pub size_is_zero : Option ℕ → Bool
size_is_zero none = false
size_is_zero (some displayed) = leb displayed 0

-- `ConservativeFillModel.evaluate` from its check of `improved` and `touched` on.
unfoldable pub conservative_fill :
    Conservative → ℕ → Bool → Bool → Money → Option ℕ → ℕ → FillDecision
conservative_fill c seed improved touched price displayed remaining =
    if not improved && not touched
    then refuse seed FillReason.not_reached
    else if size_is_zero displayed
    then refuse seed FillReason.size_zero
    else if touched && queue_gate_missed c seed
    then refuse seed FillReason.gate_missed
    else record {
      quantity = capped_quantity c displayed remaining;
      price = some price;
      deterministic_seed = seed;
      reason = if improved then FillReason.through_limit else FillReason.gate_accepted;
    }

unfoldable pub conservative_evaluate :
    Conservative → ℕ → BrokerOrder → OptionQuote → ℕ → FillDecision
unfolding conservative_fill
conservative_evaluate c seed o q remaining =
    if leb remaining 0
    then refuse seed FillReason.no_remaining
    else if is_buy o.side
    then conservative_fill c seed (ltb 0 q.ask && ltb q.ask o.limit_price)
        (ltb 0 q.ask && q.ask == o.limit_price) q.ask q.ask_size remaining
    else conservative_fill c seed (ltb o.limit_price q.bid) (ltb 0 q.bid && q.bid == o.limit_price)
        q.bid q.bid_size remaining

-- `FillModel.seed_for`, as a parameter: a hash of the order's and the quote's identifiers.
module _ (seed_for : BrokerOrder → OptionQuote → ℕ) where
  abbrev pub optimistic_model : FillModel
  optimistic_model = record {
    version = 0;
    evaluate = λ o q remaining. optimistic_evaluate (seed_for o q) o q remaining;
  }

  abbrev pub conservative_model : Label → Conservative → FillModel
  conservative_model version c = record {
    version = version;
    evaluate = λ o q remaining. conservative_evaluate c (seed_for o q) o q remaining;
  }

-- ===== src/Risk/Engine.antt =====
-- app/risk/engine.py: `RiskRule`, `RiskEngine.evaluate` and `_decision`, with the parts of
-- app/config.py that they read.
use sentry.Prelude.{
  ℕ, ◌+◌, ◌-◌, ◌*◌, Bool, true, false, not, ◌&&◌, ◌||◌, Option, none, some, List, [], ◌∷◌, ◌++◌,
  ltb, leb, ◌==◌, if◌then◌else◌, is_empty, any,
}
use sentry.Domain.Enums.{OptionType, same_type, same_environment, is_live, is_buy}
use sentry.Domain.Market.{unit, Label, Time, Money, OptionQuote, AccountSnapshot, same_contract}
use sentry.Domain.Trade.{TradeProposal, RiskDecision, max_loss}

pub data RiskRule : Type 0 where
  environment_match config_version_match account_state_known live_account_authenticated : RiskRule
  account_fresh quote_fresh quote_match entry_side allowed_instrument contract_limit : RiskRule
  premium_limit aggregate_risk_limit open_position_limit daily_entry_limit : RiskRule
  cash_affordable buying_power_affordable live_capital_ceiling nonzero_bid : RiskRule
  minimum_open_interest minimum_option_volume maximum_bid_ask_spread : RiskRule

-- The settings of `RiskConfig` that the engine reads. "long_call" and "long_put" are the two option
-- types; a percentage is on the grid of the prices.
pub record RiskConfig : Type 0 where
  pub version : Label
  pub allowed_instruments : List OptionType
  pub maximum_contracts_per_position : ℕ
  pub max_new_trade_premium_dollars : Money
  pub max_total_open_option_risk_dollars : Money
  pub max_open_positions : ℕ
  pub max_new_entries_per_day : ℕ
  pub daily_new_entries_enabled : Bool
  pub require_nonzero_bid : Bool
  pub starting_minimum_open_interest : ℕ
  pub starting_minimum_option_volume : ℕ
  pub starting_maximum_bid_ask_percent : Money

-- The fields of `RiskEngine`, without the clock.
pub record RiskEngine : Type 0 where
  pub config : RiskConfig
  pub maximum_quote_age : ℕ
  pub maximum_account_age : ℕ
  pub live_capital_ceiling : Option Money

-- `RiskEngine.__init__`; `none` stands for its `ValueError`.
unfoldable pub new : RiskConfig → ℕ → ℕ → Option Money → Option RiskEngine
new config quote_age account_age ceiling =
    if leb quote_age 0 || leb account_age 0
    then none
    else if elim ceiling [ none ↦ false | some c ↦ leb c 0 ]
    then none
    else some (record {
      config = config;
      maximum_quote_age = quote_age;
      maximum_account_age = account_age;
      live_capital_ceiling = ceiling;
    })

-- `timedelta(0) <= now - then <= maximum`
abbrev pub within_age : Time → Time → ℕ → Bool
within_age now moment maximum = leb moment now && leb (now - moment) maximum

abbrev pub Outcome : Type 0
Outcome = RiskRule × Bool

abbrev pub account_is_fresh : RiskEngine → Time → AccountSnapshot → Bool
account_is_fresh e now a = within_age now a.as_of e.maximum_account_age

abbrev pub quote_is_fresh : RiskEngine → Time → TradeProposal → OptionQuote → Bool
quote_is_fresh e now p q =
    within_age now q.observed_at e.maximum_quote_age
    && leb q.effective_at q.observed_at
    && leb q.observed_at now
    && leb p.quote_as_of now

-- The checks that stand above the return for an exit.
unfoldable pub identity_outcomes :
    RiskEngine → Time → TradeProposal → AccountSnapshot → OptionQuote → List Outcome
identity_outcomes e now p a q =
    (RiskRule.environment_match, same_environment p.environment a.environment)
    ∷ (RiskRule.config_version_match, p.risk_config_version == e.config.version)
    ∷ (RiskRule.account_state_known, a.state_known)
    ∷ (RiskRule.live_account_authenticated, not (is_live p.environment) || a.is_authenticated)
    ∷ (RiskRule.account_fresh, account_is_fresh e now a)
    ∷ (RiskRule.quote_fresh, quote_is_fresh e now p q)
    ∷ (
      RiskRule.quote_match,
      q.snapshot_id == p.quote_snapshot_id
          && same_contract q.contract p.contract
          && p.quote_as_of == q.observed_at,
    )
    ∷ []

-- `value is not None and value >= minimum`
abbrev pub reaches : Option ℕ → ℕ → Bool
reaches none minimum = false
reaches (some value) minimum = leb minimum value

-- `spread_percent <= maximum`, multiplied out; a quote without an ask has an infinite spread. The
-- quote's own validator has bid <= ask.
abbrev pub spread_is_narrow : OptionQuote → Money → Bool
spread_is_narrow q maximum =
    if ltb 0 q.ask then leb ((q.ask - q.bid) * 100 * unit) (maximum * q.ask) else false

abbrev pub below_ceiling : Option Money → Money → Bool
below_ceiling none risk = false
below_ceiling (some ceiling) risk = leb risk ceiling

-- The checks of an entry.
unfoldable pub entry_outcomes :
    RiskEngine → TradeProposal → AccountSnapshot → OptionQuote → List Outcome
entry_outcomes e p a q =
    let c = e.config in
    let loss = max_loss p in
    let risk = a.open_option_risk + loss in
    (RiskRule.entry_side, is_buy p.side)
    ∷ (RiskRule.allowed_instrument, any (same_type p.contract.option_type) c.allowed_instruments)
    ∷ (RiskRule.contract_limit, leb p.quantity c.maximum_contracts_per_position)
    ∷ (RiskRule.premium_limit, leb loss c.max_new_trade_premium_dollars)
    ∷ (RiskRule.aggregate_risk_limit, leb risk c.max_total_open_option_risk_dollars)
    ∷ (RiskRule.open_position_limit, ltb a.open_positions c.max_open_positions)
    ∷ (
      RiskRule.daily_entry_limit,
      if c.daily_new_entries_enabled
          then ltb a.new_entries_today c.max_new_entries_per_day
          else true,
    )
    ∷ (RiskRule.cash_affordable, leb loss a.cash)
    ∷ (RiskRule.buying_power_affordable, leb loss a.buying_power)
    ∷ (
      RiskRule.live_capital_ceiling,
      not (is_live p.environment) || below_ceiling e.live_capital_ceiling risk,
    )
    ∷ (RiskRule.nonzero_bid, if c.require_nonzero_bid then ltb 0 q.bid else true)
    ∷ (RiskRule.minimum_open_interest, reaches q.open_interest c.starting_minimum_open_interest)
    ∷ (RiskRule.minimum_option_volume, reaches q.volume c.starting_minimum_option_volume)
    ∷ (RiskRule.maximum_bid_ask_spread, spread_is_narrow q c.starting_maximum_bid_ask_percent)
    ∷ []

unfoldable pub failed : List Outcome → List RiskRule
failed [] = []
failed ((rule, ok) ∷ rest) = if ok then failed rest else rule ∷ failed rest

unfoldable pub passed : List Outcome → List RiskRule
passed [] = []
passed ((rule, ok) ∷ rest) = if ok then rule ∷ passed rest else passed rest

abbrev pub is_account_fresh : RiskRule → Bool
is_account_fresh RiskRule.account_fresh = true
is_account_fresh _ = false

abbrev pub is_quote_fresh : RiskRule → Bool
is_quote_fresh RiskRule.quote_fresh = true
is_quote_fresh _ = false

-- `_decision`
unfoldable pub decide :
    RiskEngine
    → Time
    → TradeProposal
    → AccountSnapshot
    → List Outcome
    → Money
    → Money
    → RiskDecision RiskRule
decide e now p a outcomes loss risk = record {
  created_at = now;
  environment = p.environment;
  proposal_id = p.proposal_id;
  allowed = is_empty (failed outcomes);
  failed_rules = failed outcomes;
  passed_rules = passed outcomes;
  account_snapshot_id = a.snapshot_id;
  proposed_max_loss = loss;
  resulting_aggregate_risk = risk;
  data_fresh = any is_account_fresh (passed outcomes) && any is_quote_fresh (passed outcomes);
  risk_config_version = e.config.version;
}

unfoldable pub evaluate :
    RiskEngine → Time → TradeProposal → AccountSnapshot → OptionQuote → RiskDecision RiskRule
evaluate e now p a q =
    let identity = identity_outcomes e now p a q in
    if not (is_buy p.side)
    then decide e now p a identity 0 a.open_option_risk
    else decide e now p a (identity ++ entry_outcomes e p a q) (max_loss p)
        (a.open_option_risk + max_loss p)

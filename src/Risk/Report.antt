-- ===== src/Risk/Report.antt =====
-- app/risk/engine.py: what a decision reports of the rules.
use sentry.Prelude.{
  ℕ, ◌+◌, ◌≡◌, refl, ◌∙◌, Bool, true, false, ◌||◌, List, [], ◌∷◌, ◌++◌, arith, Bool-cases, inl, inr,
  ◌==◌, ltb, if◌then◌else◌,
}
use sentry.Domain.Enums.{is_buy}
use sentry.Domain.Market.{Time, OptionQuote, AccountSnapshot}
use sentry.Domain.Trade.{TradeProposal, consistent_result}
use sentry.Risk.Engine.{
  RiskEngine, RiskRule, Outcome, identity_outcomes, entry_outcomes, failed, passed, decide,
  evaluate,
}

-- The place of a rule in `RiskRule`.
abbrev index : RiskRule → ℕ
index RiskRule.environment_match = 0
index RiskRule.config_version_match = 1
index RiskRule.account_state_known = 2
index RiskRule.live_account_authenticated = 3
index RiskRule.account_fresh = 4
index RiskRule.quote_fresh = 5
index RiskRule.quote_match = 6
index RiskRule.entry_side = 7
index RiskRule.allowed_instrument = 8
index RiskRule.contract_limit = 9
index RiskRule.premium_limit = 10
index RiskRule.aggregate_risk_limit = 11
index RiskRule.open_position_limit = 12
index RiskRule.daily_entry_limit = 13
index RiskRule.cash_affordable = 14
index RiskRule.buying_power_affordable = 15
index RiskRule.live_capital_ceiling = 16
index RiskRule.nonzero_bid = 17
index RiskRule.minimum_open_interest = 18
index RiskRule.minimum_option_volume = 19
index RiskRule.maximum_bid_ask_spread = 20

-- How often a rule stands in a list.
abbrev pub times : RiskRule → List RiskRule → ℕ
times r [] = 0
times r (x ∷ xs) = (if index r == index x then 1 else 0) + times r xs

abbrev rules : List Outcome → List RiskRule
rules [] = []
rules ((r, b) ∷ rest) = r ∷ rules rest

times_split :
    (r : RiskRule) (xs : List Outcome)
    → times r (failed xs) + times r (passed xs) ≡ times r (rules xs)
unfolding failed passed
times_split r [] = refl
times_split r ((x, true) ∷ xs) = grind (arith, times_split r xs)
times_split r ((x, false) ∷ xs) = grind (arith, times_split r xs)

-- The rules that are checked of an exit too.
abbrev pub is_identity : RiskRule → Bool
is_identity r = ltb (index r) 7

identity_once :
    (e : RiskEngine) (now : Time) (p : TradeProposal) (a : AccountSnapshot) (q : OptionQuote)
    (r : RiskRule)
    → times r (rules (identity_outcomes e now p a q)) ≡ (if is_identity r then 1 else 0)
unfolding identity_outcomes
identity_once e now p a q RiskRule.environment_match = refl
identity_once e now p a q _ = refl

all_once :
    (e : RiskEngine) (now : Time) (p : TradeProposal) (a : AccountSnapshot) (q : OptionQuote)
    (r : RiskRule)
    → times r (rules (identity_outcomes e now p a q ++ entry_outcomes e p a q)) ≡ 1
unfolding identity_outcomes entry_outcomes
all_once e now p a q RiskRule.environment_match = refl
all_once e now p a q _ = refl

-- A decision passes the checks of its own class, and reports each rule once, as failed or as passed:
-- for an entry all rules, for an exit the rules of identity and freshness and no other.
pub evaluate-reports :
    (e : RiskEngine) (now : Time) (p : TradeProposal) (a : AccountSnapshot) (q : OptionQuote)
    → (consistent_result (evaluate e now p a q) ≡ true)
      × ((r : RiskRule)
          → times r (evaluate e now p a q).failed_rules
              + times r (evaluate e now p a q).passed_rules
            ≡ (if is_buy p.side || is_identity r then 1 else 0))
unfolding evaluate decide
evaluate-reports e now p a q = elim (Bool-cases (is_buy p.side)) [
  | inl b ↦ rw b (
    ground arith,
    λ r.
        times_split r (identity_outcomes e now p a q ++ entry_outcomes e p a q)
        ∙ all_once e now p a q r,
  )
  | inr b ↦ rw b (
    ground arith,
    λ r. times_split r (identity_outcomes e now p a q) ∙ identity_once e now p a q r,
  )
]

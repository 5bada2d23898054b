-- ===== src/Risk/Admission.antt =====
-- app/risk/engine.py: what a decision of the risk engine means.
use sentry.Prelude.{
  ℕ, ◌+◌, ◌-◌, ◌*◌, ◌≤◌, ◌<◌, ◌≡◌, ◌↔◌, refl, sym, ◌∙◌, &&_elim, Bool, true, false, ◌&&◌, Option,
  none, some, List, [], ◌∷◌, ◌++◌, arith, is_empty, all, All, any,
}
use sentry.Domain.Enums.{same_type, is_live, is_buy}
use sentry.Domain.Market.{unit, Time, OptionQuote, AccountSnapshot, same_contract}
use sentry.Domain.Trade.{TradeProposal, max_loss}
use sentry.Risk.Engine.{
  RiskEngine, Outcome, identity_outcomes, entry_outcomes, failed, decide, evaluate,
}

abbrev held : Outcome → Bool
held o = o.1

is_empty-failed : (xs : List Outcome) → is_empty (failed xs) ≡ all held xs
unfolding failed
is_empty-failed [] = refl
is_empty-failed ((r, b) ∷ xs) = ground (arith, is_empty-failed xs)

all-append : (xs ys : List Outcome) → all held (xs ++ ys) ≡ all held xs && all held ys
all-append [] ys = refl
all-append ((r, b) ∷ xs) ys = ground (arith, all-append xs ys)

all_held : (xs : List Outcome) → All (λ o. held o ≡ true) xs → all held xs ≡ true
all_held [] h = refl
all_held ((r, b) ∷ xs) h = ground (arith, all_held xs h.1)

-- The order and the evidence belong together, and the evidence is recent.
pub record IsCurrent (e : RiskEngine) (now : Time) (p : TradeProposal) (a : AccountSnapshot)
    (q : OptionQuote) : Type 0 where
  pub environment_matches : p.environment ≡ a.environment
  pub same_config : p.risk_config_version ≡ e.config.version
  pub state_known : a.state_known ≡ true
  pub authenticated : is_live p.environment ≡ true → a.is_authenticated ≡ true
  pub account_not_future : a.as_of ≤ now
  pub account_recent : now ≤ a.as_of + e.maximum_account_age
  pub quote_not_future : q.observed_at ≤ now
  pub quote_recent : now ≤ q.observed_at + e.maximum_quote_age
  pub quote_causal : q.effective_at ≤ q.observed_at
  pub same_quote : q.snapshot_id ≡ p.quote_snapshot_id
  pub contract_matches : same_contract q.contract p.contract ≡ true
  pub same_time : p.quote_as_of ≡ q.observed_at

identity_iff :
    (e : RiskEngine) (now : Time) (p : TradeProposal) (a : AccountSnapshot) (q : OptionQuote)
    → (all held (identity_outcomes e now p a q) ≡ true) ↔ IsCurrent e now p a q
unfolding identity_outcomes
identity_iff e now p a q = (
  λ h. record {
    environment_matches = ground arith;
    same_config = ground arith;
    state_known = ground arith;
    authenticated = ground arith;
    account_not_future = ground arith;
    account_recent = ground arith;
    quote_not_future = ground arith;
    quote_recent = ground arith;
    quote_causal = ground arith;
    same_quote = ground arith;
    contract_matches = ground arith;
    same_time = ground arith;
  },
  λ h. ground (
    arith, h.environment_matches, h.same_config, h.state_known, h.authenticated,
    h.account_not_future, h.account_recent, h.quote_not_future, h.quote_recent, h.quote_causal,
    h.same_quote, h.contract_matches, h.same_time,
  ),
)

abbrev pub AtLeast : ℕ → Option ℕ → Type 0
AtLeast minimum none = ⊥
AtLeast minimum (some n) = minimum ≤ n

abbrev pub AtMost : Option ℕ → ℕ → Type 0
AtMost none n = ⊥
AtMost (some maximum) n = n ≤ maximum

-- The entry stays within every limit of the configuration and of the account.
pub record IsWithinLimits (e : RiskEngine) (p : TradeProposal) (a : AccountSnapshot)
    (q : OptionQuote) : Type 0 where
  pub instrument_allowed :
      any (same_type p.contract.option_type) e.config.allowed_instruments ≡ true
  pub quantity_limited : p.quantity ≤ e.config.maximum_contracts_per_position
  pub premium_limited : max_loss p ≤ e.config.max_new_trade_premium_dollars
  pub risk_limited : a.open_option_risk + max_loss p ≤ e.config.max_total_open_option_risk_dollars
  pub positions_limited : a.open_positions < e.config.max_open_positions
  pub entries_limited :
      e.config.daily_new_entries_enabled ≡ true
      → a.new_entries_today < e.config.max_new_entries_per_day
  pub cash_covers : max_loss p ≤ a.cash
  pub power_covers : max_loss p ≤ a.buying_power
  pub ceiling_kept :
      is_live p.environment ≡ true → AtMost e.live_capital_ceiling (a.open_option_risk + max_loss p)
  pub bid_present : e.config.require_nonzero_bid ≡ true → 0 < q.bid
  pub interest_enough : AtLeast e.config.starting_minimum_open_interest q.open_interest
  pub volume_enough : AtLeast e.config.starting_minimum_option_volume q.volume
  pub ask_present : 0 < q.ask
  pub spread_limited :
      (q.ask - q.bid) * 100 * unit ≤ e.config.starting_maximum_bid_ask_percent * q.ask

entry_iff :
    (e : RiskEngine) (p : TradeProposal) (a : AccountSnapshot) (q : OptionQuote)
    → is_buy p.side ≡ true
    → (all held (entry_outcomes e p a q) ≡ true) ↔ IsWithinLimits e p a q
unfolding entry_outcomes
entry_iff e p a q b = (
  λ h. record {
    instrument_allowed = ground arith;
    quantity_limited = ground arith;
    premium_limited = ground arith;
    risk_limited = ground arith;
    positions_limited = ground arith;
    entries_limited = ground arith;
    cash_covers = ground arith;
    power_covers = ground arith;
    ceiling_kept = ground arith;
    bid_present = ground arith;
    interest_enough = ground arith;
    volume_enough = ground arith;
    ask_present = ground arith;
    spread_limited = ground arith;
  },
  λ h. all_held (entry_outcomes e p a q) (
    b,
    (
      ground (arith, h.instrument_allowed),
      (
        ground (arith, h.quantity_limited),
        (
          ground (arith, h.premium_limited),
          (
            ground (arith, h.risk_limited),
            (
              ground (arith, h.positions_limited),
              (
                ground (arith, h.entries_limited),
                (
                  ground (arith, h.cash_covers),
                  (
                    ground (arith, h.power_covers),
                    (
                      ground (arith, h.ceiling_kept),
                      (
                        ground (arith, h.bid_present),
                        (
                          ground (arith, h.interest_enough),
                          (
                            ground (arith, h.volume_enough),
                            (ground (arith, h.ask_present, h.spread_limited), tt),
                          ),
                        ),
                      ),
                    ),
                  ),
                ),
              ),
            ),
          ),
        ),
      ),
    ),
  ),
)

allowed_entry :
    (e : RiskEngine) (now : Time) (p : TradeProposal) (a : AccountSnapshot) (q : OptionQuote)
    → is_buy p.side ≡ true
    → (evaluate e now p a q).allowed
      ≡ (all held (identity_outcomes e now p a q) && all held (entry_outcomes e p a q))
unfolding evaluate decide
allowed_entry e now p a q b = rw b (
    is_empty-failed (identity_outcomes e now p a q ++ entry_outcomes e p a q)
    ∙ all-append (identity_outcomes e now p a q) (entry_outcomes e p a q))

-- An entry is allowed exactly when its evidence is current and it stays within every limit: the
-- limits of the configuration, the account's cash and buying power, and for LIVE a capital ceiling
-- that is set.
pub evaluate-IsWithinLimits :
    (e : RiskEngine) (now : Time) (p : TradeProposal) (a : AccountSnapshot) (q : OptionQuote)
    → is_buy p.side ≡ true
    → ((evaluate e now p a q).allowed ≡ true) ↔ (IsCurrent e now p a q × IsWithinLimits e p a q)
evaluate-IsWithinLimits e now p a q b =
    let (i, i') = identity_iff e now p a q in
    let (l, l') = entry_iff e p a q b in
    let same = allowed_entry e now p a q b in
    (
      λ h. (let (x, y) = &&_elim _ _ (sym same ∙ h) in (i x, l y)),
      λ h. (same ∙ rw (i' h.0, l' h.1) refl),
    )

-- An exit is allowed exactly when its evidence is current, whatever the limits are, and adds nothing
-- to the open risk.
pub evaluate-exit :
    (e : RiskEngine) (now : Time) (p : TradeProposal) (a : AccountSnapshot) (q : OptionQuote)
    → is_buy p.side ≡ false
    → (((evaluate e now p a q).allowed ≡ true) ↔ IsCurrent e now p a q)
      × ((evaluate e now p a q).resulting_aggregate_risk ≡ a.open_option_risk)
unfolding evaluate decide
evaluate-exit e now p a q b =
    let (i, i') = identity_iff e now p a q in
    let same = is_empty-failed (identity_outcomes e now p a q) in
    rw b ((λ h. i (sym same ∙ h), λ h. same ∙ i' h), refl)

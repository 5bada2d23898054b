-- ===== src/Broker/FillModel/Lawful.antt =====
-- app/broker/fill_models.py: the decisions of both models are ones that the ledger may apply.
use sentry.Prelude.{ℕ, ◌≤◌, ◌<◌, ◌≡◌, true, false, Option, none, some, arith}
use sentry.Domain.Enums.{is_buy}
use sentry.Domain.Market.{Money, OptionQuote}
use sentry.Domain.Order.{BrokerOrder}
use sentry.Broker.FillModel.{
  FillDecision, FillModel, Conservative, optimistic_evaluate, conservative_evaluate,
}

-- What the ledger's `_apply_fill` requires of a decision to fill.
abbrev pub IsLawfulPrice : BrokerOrder → Option Money → Type 0
IsLawfulPrice o none = Unit
IsLawfulPrice o (some p) =
    (0 < p)
    × (is_buy o.side ≡ true → p ≤ o.limit_price)
    × (is_buy o.side ≡ false → o.limit_price ≤ p)

abbrev pub IsLawful : BrokerOrder → ℕ → FillDecision → Type 0
IsLawful o remaining d = (d.quantity ≤ remaining) × IsLawfulPrice o d.price

-- A model whose decisions are lawful on every order with a positive limit.
abbrev pub IsLawfulModel : FillModel → Type 0
IsLawfulModel m =
    (o : BrokerOrder) (q : OptionQuote) (remaining : ℕ)
    → 0 < o.limit_price
    → IsLawful o remaining (m.evaluate o q remaining)

-- Neither model, with any seed and any settings, decides on a fill that the ledger must refuse: an
-- order with a positive limit is filled by no more than what remains, at a positive price, and never
-- worse than its limit.
pub evaluate-IsLawful :
    (c : Conservative) (seed : ℕ) (o : BrokerOrder) (q : OptionQuote) (remaining : ℕ)
    → 0 < o.limit_price
    → IsLawful o remaining (optimistic_evaluate seed o q remaining)
      × IsLawful o remaining (conservative_evaluate c seed o q remaining)
unfolding optimistic_evaluate conservative_evaluate
evaluate-IsLawful c seed o q remaining h = (ground arith, ground arith)

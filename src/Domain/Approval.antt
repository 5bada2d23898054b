-- ===== src/Domain/Approval.antt =====
-- app/domain/models.py: what an `ExactApproval` approves.
mod Tests
use sentry.Prelude.{◌≤◌, ◌≡◌, true, ap, arith}
use sentry.Domain.Market.{Label, Time}
use sentry.Domain.Trade.{
  TradeProposal, ExactApproval, FingerprintFields, order_fingerprint, is_valid_for,
}

-- The terms of two orders are the same.
abbrev pub SameOrder : TradeProposal → TradeProposal → Type 0
SameOrder p q =
    (p.environment ≡ q.environment)
    × (p.namespace ≡ q.namespace)
    × (p.contract.instrument_id ≡ q.contract.instrument_id)
    × (p.side ≡ q.side)
    × (p.quantity ≡ q.quantity)
    × (p.limit_price ≡ q.limit_price)
    × (p.proposal_id ≡ q.proposal_id)

same_fields :
    (sha256_json : FingerprintFields → Label) (p q : TradeProposal)
    → ((f g : FingerprintFields) → sha256_json f ≡ sha256_json g → f ≡ g)
    → order_fingerprint sha256_json p ≡ order_fingerprint sha256_json q
    → SameOrder p q
same_fields sha256_json p q no_collision h =
    let e = no_collision _ _ h in
    (
      ap (λ f. f.environment) e,
      ap (λ f. f.namespace) e,
      ap (λ f. f.contract) e,
      ap (λ f. f.side) e,
      ap (λ f. f.quantity) e,
      ap (λ f. f.limit_price) e,
      ap (λ f. f.proposal_id) e,
    )

-- With a hash that has no collisions, an approval that is valid for two proposals, at any times, is
-- valid for one and the same order: environment, namespace, contract, side, quantity, limit and
-- proposal agree, and the limit is within the approved maximum.
pub is_valid_for-SameOrder :
    (sha256_json : FingerprintFields → Label) (a : ExactApproval) (p q : TradeProposal)
    (now later : Time)
    → ((f g : FingerprintFields) → sha256_json f ≡ sha256_json g → f ≡ g)
    → is_valid_for sha256_json a p now ≡ true
    → is_valid_for sha256_json a q later ≡ true
    → SameOrder p q × (q.limit_price ≤ a.maximum_limit_price)
unfolding is_valid_for
is_valid_for-SameOrder sha256_json a p q now later no_collision h k =
    let same : order_fingerprint sha256_json p ≡ order_fingerprint sha256_json q = ground arith in
    (same_fields sha256_json p q no_collision same, ground arith)

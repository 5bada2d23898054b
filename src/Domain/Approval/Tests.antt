-- ===== src/Domain/Approval/Tests.antt =====
-- app/domain/models.py: an approval of one purchase, and a hash without collisions.
use sentry.Prelude.{
  ℕ, ◌+◌, ◌*◌, ◌≤◌, ◌<◌, ◌≡◌, ap, sym, refl, inl, inr, true, false, [], arith, ltb, Bool-cases,
}
use sentry.Domain.Enums.{ExecutionEnvironment, OptionType, OrderSide}
use sentry.Domain.Market.{OptionContract}
use sentry.Domain.Trade.{
  TradeProposal, ExactApproval, FingerprintFields, order_fingerprint, is_valid_for,
}
use sentry.Domain.Approval.{SameOrder, is_valid_for-SameOrder}

-- A square and a rest that is at most its root determine both.
square_gap : (s t : ℕ) → s < t → s * s + s + s + 1 ≤ t * t
square_gap s t h = grind arith

abbrev pair : ℕ → ℕ → ℕ
pair a b = (a + b) * (a + b) + a

pair_sum_le : (a b c d : ℕ) → pair a b ≡ pair c d → c + d ≤ a + b
pair_sum_le a b c d h = elim (Bool-cases (ltb (a + b) (c + d))) [
  | inl less ↦
      let less : a + b < c + d = ground arith in
      let gap = square_gap (a + b) (c + d) less in absurd (omega (arith, gap, h))
  | inr more ↦ ground arith
]

pair_injective : (a b c d : ℕ) → pair a b ≡ pair c d → (a ≡ c) × (b ≡ d)
pair_injective a b c d h =
    let sum : a + b ≡ c + d = omega (arith, pair_sum_le a b c d h, pair_sum_le c d a b (sym h)) in
    let square : (a + b) * (a + b) ≡ (c + d) * (c + d) = ap (λ s. s * s) sum in
    (omega (arith, sum, square, h), omega (arith, sum, square, h))

abbrev environment_code : ExecutionEnvironment → ℕ
environment_code ExecutionEnvironment.demo = 0
environment_code ExecutionEnvironment.live = 1

abbrev side_code : OrderSide → ℕ
side_code OrderSide.buy_to_open = 0
side_code OrderSide.sell_to_close = 1

unfoldable code : FingerprintFields → ℕ
code f = pair (environment_code f.environment) (
    pair f.namespace (
      pair f.contract (
        pair (side_code f.side)
          (pair f.quantity (pair f.limit_price (pair f.limit_decimals f.proposal_id))))))

code_injective : (f g : FingerprintFields) → code f ≡ code g → f ≡ g
unfolding code
code_injective f g h =
    let (e, h1) = pair_injective _ _ _ _ h in
    let (n, h2) = pair_injective _ _ _ _ h1 in
    let (c, h3) = pair_injective _ _ _ _ h2 in
    let (s, h4) = pair_injective _ _ _ _ h3 in
    let (q, h5) = pair_injective _ _ _ _ h4 in
    let (l, h6) = pair_injective _ _ _ _ h5 in
    let (m, p) = pair_injective _ _ _ _ h6 in ground (arith, e, n, c, s, q, l, m, p)

abbrev contract : OptionContract
contract = record {
  instrument_id = 3;
  symbol = 1;
  option_type = OptionType.call;
  strike = 50;
  expiration = 9;
  multiplier = 100;
}

abbrev purchase : TradeProposal
purchase = record {
  proposal_id = 1;
  environment = ExecutionEnvironment.demo;
  namespace = 0;
  packet_id = 31;
  contract = contract;
  side = OrderSide.buy_to_open;
  quantity = 2;
  limit_price = 3;
  limit_decimals = 2;
  quote_snapshot_id = 20;
  quote_as_of = 95;
  policy_version = 1;
  risk_config_version = 2;
  invalidation_conditions = [];
}

-- The same order, made again from a later quote.
abbrev purchase_again : TradeProposal
purchase_again = record purchase { quote_snapshot_id = 22; quote_as_of = 97 }

abbrev approval : ExactApproval
approval = record {
  approval_id = 60;
  created_at = 96;
  environment = ExecutionEnvironment.demo;
  namespace = 0;
  proposal_id = 1;
  order_fingerprint = order_fingerprint code purchase;
  maximum_limit_price = 3;
  expires_at = 200;
  rejected = false;
}

approved : is_valid_for code approval purchase 100 ≡ true
unfolding is_valid_for code
approved = refl

approved_again : is_valid_for code approval purchase_again 110 ≡ true
unfolding is_valid_for code
approved_again = refl

is_valid_for-SameOrder_example : SameOrder purchase purchase_again × (3 ≤ 3)
is_valid_for-SameOrder_example =
    is_valid_for-SameOrder code approval purchase purchase_again 100 110 code_injective approved
      approved_again

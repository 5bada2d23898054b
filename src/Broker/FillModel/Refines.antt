-- ===== src/Broker/FillModel/Refines.antt =====
-- app/broker/fill_models.py: the conservative model beside the optimistic one.
use sentry.Prelude.{ℕ, ◌≤◌, ◌≡◌, inl, inr, Bool, true, ◌||◌, Option, some, arith, Bool-cases, leb}
use sentry.Domain.Enums.{is_buy}
use sentry.Domain.Market.{Money, OptionQuote}
use sentry.Domain.Order.{BrokerOrder}
use sentry.Broker.FillModel.{
  should_fill, Conservative, conservative_fill, optimistic_buy, optimistic_sell,
  optimistic_evaluate, conservative_evaluate,
}

conservative_fill-fills :
    (c : Conservative) (seed : ℕ) (improved touched : Bool) (price : Money) (displayed : Option ℕ)
    (remaining : ℕ)
    → should_fill (conservative_fill c seed improved touched price displayed remaining) ≡ true
    → (improved || touched ≡ true)
      × ((conservative_fill c seed improved touched price displayed remaining).price ≡ some price)
      × ((conservative_fill c seed improved touched price displayed remaining).quantity ≤ remaining)
unfolding conservative_fill
conservative_fill-fills c seed improved touched price displayed remaining h = ground arith

-- Where the conservative model fills, with any settings and any seed, the optimistic model fills
-- too, at the same price and at least as much.
pub conservative-refines :
    (c : Conservative) (seed seed' : ℕ) (o : BrokerOrder) (q : OptionQuote) (remaining : ℕ)
    → should_fill (conservative_evaluate c seed o q remaining) ≡ true
    → (should_fill (optimistic_evaluate seed' o q remaining) ≡ true)
      × ((optimistic_evaluate seed' o q remaining).price
          ≡ (conservative_evaluate c seed o q remaining).price)
      × ((conservative_evaluate c seed o q remaining).quantity
          ≤ (optimistic_evaluate seed' o q remaining).quantity)
unfolding conservative_evaluate optimistic_evaluate optimistic_buy optimistic_sell
conservative-refines c seed seed' o q remaining h = elim (Bool-cases (leb remaining 0)) [
  | inl empty ↦ absurd (cc (rw empty at h))
  | inr more ↦ elim (Bool-cases (is_buy o.side)) [
    | inl buy ↦
        let filled =
          conservative_fill-fills c seed _ _ q.ask q.ask_size remaining (rw (more, buy) at h) in
        rw (more, buy) (ground (arith, filled))
    | inr sell ↦
        let filled =
          conservative_fill-fills c seed _ _ q.bid q.bid_size remaining (rw (more, sell) at h) in
        rw (more, sell) (ground (arith, filled))
  ]
]

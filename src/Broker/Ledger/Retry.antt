-- ===== src/Broker/Ledger/Retry.antt =====
-- app/broker/shadow_ledger.py: `submit` called again with the same command.
use sentry.Prelude.{
  ◌≡◌, ◌∙◌, refl, ap, inl, inr, ◌⊎◌, none, some, arith, List, Option, Option-cases,
}
use sentry.Prelude.Dict.{lookup, insert, lookup-insert_self}
use sentry.Domain.Market.{Time, OptionContract}
use sentry.Domain.Order.{BrokerCommandIntent, BrokerOrder}
use sentry.Broker.Ledger.State.{ShadowLedger, Context, Error, Warning, Result, ok, err}
use sentry.Broker.Ledger.Orders.{
  submit, submit_new, store_submission, submitted_order, submit_reasons, command_error,
  duplicate_order, duplicate_known,
}

found-cases :
    (r : Result (Option BrokerOrder))
    → ((e : Error) × (r ≡ err e)) ⊎ ((r ≡ ok none) ⊎ ((o : BrokerOrder) × (r ≡ ok (some o))))
found-cases (err e) = inl (e, refl)
found-cases (ok none) = inr (inl refl)
found-cases (ok (some o)) = inr (inr (o, refl))

module _ (command : BrokerCommandIntent) (contract : OptionContract) where
  -- What the idempotency key finds.
  abbrev found : Context → ShadowLedger → Result (Option BrokerOrder)
  found x l = duplicate_known x command l (lookup command.idempotency_key l.order_by_idempotency)

  submit-known :
      (x : Context) (l : ShadowLedger) (o : BrokerOrder)
      → command_error l command contract ≡ none
      → found x l ≡ ok (some o)
      → submit x command contract l ≡ (ok o, l)
  unfolding submit duplicate_order
  submit-known x l o h k = rw (h, k) refl

  submit-cases :
      (x : Context) (l : ShadowLedger) (o : BrokerOrder)
      → (submit x command contract l).0 ≡ ok o
      → (command_error l command contract ≡ none)
        × (((found x l ≡ ok (some o)) × (submit x command contract l ≡ (ok o, l)))
            ⊎ (submit x command contract l ≡ submit_new x command contract l))
  unfolding submit duplicate_order
  submit-cases x l o h = elim (Option-cases (command_error l command contract)) [
    | inl valid ↦ elim (found-cases (found x l)) [
      | inl (e, f) ↦ absurd (cc (rw (valid, f) at h))
      | inr (inl f) ↦ (valid, inr (rw (valid, f) refl))
      | inr (inr (o', f)) ↦
          let same : o' ≡ o = ground (arith, rw (valid, f) at h) in
          (valid, inl (rw (f, same) refl, rw (valid, f, same) refl))
    ]
    | inr (e, wrong) ↦ absurd (cc (rw wrong at h))
  ]

  new-command_error :
      (x : Context) (l : ShadowLedger)
      → command_error (submit_new x command contract l).1 command contract
        ≡ command_error l command contract
  unfolding submit_new store_submission command_error
  new-command_error x l = ground arith

  stored :
      (x : Context) (order : BrokerOrder) (reasons : List Warning) (l : ShadowLedger)
      → ((store_submission x command order reasons l).order_by_idempotency
          ≡ insert command.idempotency_key order.order_id l.order_by_idempotency)
        × ((store_submission x command order reasons l).orders
            ≡ insert order.order_id (record { published = order; command = command }) l.orders)
  unfolding store_submission
  stored x order reasons l = ground arith

  -- What was stored is found under the command's key.
  found-store :
      (x y : Context) (order : BrokerOrder) (reasons : List Warning) (l : ShadowLedger)
      → found y (store_submission x command order reasons l) ≡ ok (some order)
  found-store x y order reasons l =
      let (keys, orders) = stored x order reasons l in
      rw (keys, orders, lookup-insert_self) (rw lookup-insert_self (ground arith))

  new-found :
      (x y : Context) (l : ShadowLedger) (o : BrokerOrder)
      → (submit_new x command contract l).0 ≡ ok o
      → found y (submit_new x command contract l).1 ≡ ok (some o)
  unfolding submit_new
  new-found x y l o h =
      let order = submitted_order x l command contract (submit_reasons x l command contract) in
      let same : order ≡ o = ground arith in
      found-store x y order (submit_reasons x l command contract) l ∙ ap (λ o. ok (some o)) same

  -- A submission that returned an order, made again at any later time with the same command,
  -- returns the same order and changes nothing.
  pub submit-retry :
      (x : Context) (later : Time) (l : ShadowLedger) {order : BrokerOrder}
      → (submit x command contract l).0 ≡ ok order
      → submit (record x { now = later }) command contract (submit x command contract l).1
        ≡ (ok order, (submit x command contract l).1)
  submit-retry x later l {order} h =
      let (valid, cases) = submit-cases x l order h in
      let y = record x { now = later } in
      elim cases [
        | inl (known, e) ↦ rw e (submit-known y l order valid known)
        | inr e ↦ rw e (
            submit-known y (submit_new x command contract l).1 order (new-command_error x l ∙ valid)
              (new-found x y l order (rw e at h)))
      ]

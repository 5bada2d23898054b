-- ===== src/Broker/Ledger/History.antt =====
-- app/broker/shadow_ledger.py: a ledger over any history of calls, also of calls that raise.
use sentry.Prelude.{ℕ, ◌≤◌, ◌≡◌, refl, true, Option, List, [], ◌∷◌, arith, All}
use sentry.Prelude.Int.{ℤ, pos, -ℤ_parts}
use sentry.Prelude.Dict.{Dict, AllEntries}
use sentry.Domain.Enums.{AccountKind}
use sentry.Domain.Market.{Label, Day, Money, OptionContract, OptionQuote}
use sentry.Domain.Trade.{TradeProposal}
use sentry.Domain.Order.{BrokerCommandIntent, Position}
use sentry.Broker.Ledger.State.{ShadowLedger, LedgerOrder, Context, new}
use sentry.Broker.Ledger.Holdings.{
  reserved_buying_power, reserved_quantity, owned_quantity, buying_power,
  available_position_quantity,
}
use sentry.Broker.Ledger.Quotes.{observe_quote}
use sentry.Broker.Ledger.Orders.{deposit, review, submit}
use sentry.Broker.Ledger.Cancel.{Target, cancel}
use sentry.Broker.Ledger.Expiry.{ExpirationPolicy, expire}
use sentry.Broker.Ledger.Audit.{
  Discrepancy, order_issues, position_issues, discrepancies, reconciles,
}
use sentry.Broker.Ledger.Invariant.{IsValid, IsValidEntry, IsValidPosition}
use sentry.Broker.Ledger.Invariant.Submitting.{
  IsWellFormed, deposit-IsValid, review-IsValid, submit-IsValid,
}
use sentry.Broker.Ledger.Invariant.Ending.{cancel-IsValid}
use sentry.Broker.Ledger.Invariant.Expiring.{expire-IsValid}
use sentry.Broker.Ledger.Invariant.Observing.{observe_quote-IsValid}

-- One call of a method that changes the ledger, with what it takes from outside.
pub data Call : Type 0 where
  deposit_call : Context → ℤ → Label → Call
  quote_call : Context → OptionQuote → Call
  review_call : Context → TradeProposal → Call
  submit_call : Context → BrokerCommandIntent → OptionContract → Call
  cancel_call : Context → BrokerCommandIntent → Target → Call
  expire_call : Context → Option Day → ExpirationPolicy → Dict ℤ → Call

-- The ledger after the call, whether it returns or raises.
unfoldable pub apply : Call → ShadowLedger → ShadowLedger
apply (Call.deposit_call x amount reference) l = (deposit x amount reference l).1
apply (Call.quote_call x q) l = (observe_quote x q l).1
apply (Call.review_call x p) l = (review x p l).1
apply (Call.submit_call x command contract) l = (submit x command contract l).1
apply (Call.cancel_call x command target) l = (cancel x command target l).1
apply (Call.expire_call x on_date policy settlements) l = (expire x on_date policy settlements l).1

unfoldable pub run : List Call → ShadowLedger → ShadowLedger
run [] l = l
run (c ∷ cs) l = run cs (apply c l)

-- A submission is well-formed; nothing is asked of the other calls.
abbrev pub IsFormed : (Label → Day) → Call → Type 0
IsFormed expiry (Call.submit_call x command contract) = IsWellFormed expiry command contract
IsFormed expiry _ = Unit

module _ (expiry : Label → Day) where
  pub new-IsValid :
      (cash : Money) (kind : AccountKind) (age : ℕ) (namespace : Label)
      → IsValid expiry (new cash kind age namespace)
  unfolding new reserved_buying_power reserved_quantity owned_quantity
  new-IsValid cash kind age namespace = record {
    covered = omega arith;
    held = λ i. omega arith;
    orders_valid = tt;
    positions_valid = tt;
  }

  apply-IsValid :
      (c : Call) (l : ShadowLedger)
      → IsFormed expiry c
      → IsValid expiry l
      → IsValid expiry (apply c l)
  unfolding apply
  apply-IsValid (Call.deposit_call x amount reference) l f v =
      deposit-IsValid expiry x amount reference l v
  apply-IsValid (Call.quote_call x q) l f v = observe_quote-IsValid expiry x q l v
  apply-IsValid (Call.review_call x p) l f v = review-IsValid expiry x p l v
  apply-IsValid (Call.submit_call x command contract) l f v =
      submit-IsValid expiry x command contract l f v
  apply-IsValid (Call.cancel_call x command target) l f v =
      cancel-IsValid expiry x command target l v
  apply-IsValid (Call.expire_call x on_date policy settlements) l f v =
      expire-IsValid expiry x on_date policy settlements l v

  pub run-IsValid :
      (cs : List Call) (l : ShadowLedger)
      → All (IsFormed expiry) cs
      → IsValid expiry l
      → IsValid expiry (run cs l)
  unfolding run
  run-IsValid [] l f v = v
  run-IsValid (c ∷ cs) l f v = run-IsValid cs (apply c l) f.1 (apply-IsValid c l f.0 v)

  no_order_issues :
      (d : Dict LedgerOrder) (rest : List Discrepancy)
      → AllEntries (IsValidEntry expiry) d
      → order_issues d rest ≡ rest
  unfolding order_issues
  no_order_issues [] rest h = refl
  no_order_issues ((key, item) ∷ more) rest h = ground (arith, no_order_issues more rest h.1)

  no_position_issues :
      (l : ShadowLedger) (d : Dict Position)
      → ((i : Label) → reserved_quantity i l.orders ≤ owned_quantity i l.positions)
      → AllEntries (IsValidPosition expiry) d
      → position_issues l d ≡ []
  unfolding position_issues available_position_quantity
  no_position_issues l [] held h = refl
  no_position_issues l ((i, p) ∷ more) held h = ground (
    arith,
    no_position_issues l more held h.1,
    held i,
    -ℤ_parts (pos (owned_quantity i l.positions)) (pos (reserved_quantity i l.orders)),
  )

  pub reconciles_of_IsValid : (l : ShadowLedger) → IsValid expiry l → reconciles l ≡ true
  unfolding reconciles discrepancies buying_power
  reconciles_of_IsValid l v = ground (
    arith,
    v.covered,
    -ℤ_parts l.cash (pos (reserved_buying_power l.orders)),
    no_order_issues l.orders (position_issues l l.positions) v.orders_valid,
    no_position_issues l l.positions v.held v.positions_valid,
  )

-- A new ledger, taken through any history of calls with any fill models, clock readings and quotes,
-- reconciles: cash and buying power are not negative, no order is filled beyond its quantity, a
-- FILLED order is complete, positions are positive and cover the open sells. It is asked only that
-- submitted quantities and limits are positive and that an instrument identifier always names
-- contracts of one expiration. Calls that raise half way are included.
pub run-reconciles :
    (expiry : Label → Day) (cash : Money) (kind : AccountKind) (age : ℕ) (namespace : Label)
    (cs : List Call)
    → All (IsFormed expiry) cs
    → reconciles (run cs (new cash kind age namespace)) ≡ true
run-reconciles expiry cash kind age namespace cs f =
    reconciles_of_IsValid expiry (run cs (new cash kind age namespace)) (
      run-IsValid expiry cs (new cash kind age namespace) f
        (new-IsValid expiry cash kind age namespace))

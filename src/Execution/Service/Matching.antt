-- ===== src/Execution/Service/Matching.antt =====
-- app/execution/service.py: what the tests of `reconcile_submission` say of the report and the orders.
use sentry.Prelude.{
  ℕ, ◌≡◌, refl, ap, inl, inr, Bool, true, false, ◌&&◌, Option, none, some, List, [], ◌∷◌, arith,
  ◌==◌, ◌≢◌, All, elem, Bool-cases, if◌then◌else◌,
}
use sentry.Domain.Enums.{OrderState, is_unknown}
use mathlib.Core.List.{Memᴰ}
use sentry.Domain.Market.{Uuid, Label}
use sentry.Domain.Order.{OrderIntent, BrokerOrder}
use sentry.Execution.Store.{ReconciliationReport}
use sentry.Execution.Service.State.{World}
use sentry.Execution.Service.Updated.{contract_same}
use sentry.Execution.Service.Reconciliation.{
  find_match, lists_key, is_unsettled, proves_absence, matches_exactly,
}

pub find_match-intent_id :
    (id : Uuid) (l : List BrokerOrder) (o : BrokerOrder)
    → find_match id l ≡ some o
    → o.intent_id ≡ id
unfolding find_match
find_match-intent_id id [] o e = absurd (cc (e))
find_match-intent_id id (x ∷ l) o e = elim (Bool-cases (x.intent_id == id)) [
  | inl same ↦ ground arith
  | inr other ↦ find_match-intent_id id l o (rw (other, if◌then◌else◌) at e)
]

pub find_match-listed :
    (id : Uuid) (l : List BrokerOrder) (o : BrokerOrder) → find_match id l ≡ some o → Memᴰ o l
unfolding find_match
find_match-listed id [] o e = absurd (cc (e))
find_match-listed id (x ∷ l) o e = elim (Bool-cases (x.intent_id == id)) [
  | inl same ↦ let here : some x ≡ some o = rw (same, if◌then◌else◌) at e in Memᴰ.head (cc (here))
  | inr other ↦ Memᴰ.tail (find_match-listed id l o (rw (other, if◌then◌else◌) at e))
]

pub find_match-none :
    (id : Uuid) (l : List BrokerOrder) → find_match id l ≡ none → All (λ o. o.intent_id ≢ id) l
unfolding find_match
find_match-none id [] e = tt
find_match-none id (x ∷ l) e = elim (Bool-cases (x.intent_id == id)) [
  | inl same ↦ absurd (cc (rw (same, if◌then◌else◌) at e))
  | inr other ↦ (ground arith, find_match-none id l (rw (other, if◌then◌else◌) at e))
]

elem-Memᴰ : (k : ℕ) (l : List ℕ) → elem k l ≡ true → Memᴰ k l
elem-Memᴰ k [] e = absurd (cc (e))
elem-Memᴰ k (x ∷ l) e = elim (Bool-cases (k == x)) [
  | inl same ↦ Memᴰ.head (ground arith)
  | inr other ↦ Memᴰ.tail (elem-Memᴰ k l (rw (other, if◌then◌else◌) at e))
]

lists_key-keys :
    (k : ℕ) (keys : Option (List ℕ))
    → lists_key k keys ≡ true
    → (l : List ℕ) × (keys ≡ some l) × Memᴰ k l
lists_key-keys k none e = absurd (cc (e))
lists_key-keys k (some l) e = (l, refl, elem-Memᴰ k l e)

complete_of :
    (c : Option Bool) (rest : Bool)
    → ((elim c [ some complete ↦ complete | none ↦ false ]) && rest) ≡ true
    → (c ≡ some true) × (rest ≡ true)
complete_of none rest e = absurd (cc (e))
complete_of (some true) rest e = (refl, e)
complete_of (some false) rest e = absurd (cc (e))

module _ (report : ReconciliationReport) (intent : OrderIntent)
    (absent : proves_absence report (some intent) ≡ true) where
  pub absent_complete : report.order_history_complete ≡ some true
  unfolding proves_absence
  absent_complete = (complete_of report.order_history_complete _ absent).0

  pub absent-unmatched :
      (keys : List Label) × (report.negative_match_idempotency_keys ≡ some keys)
      × Memᴰ intent.idempotency_key keys
  unfolding proves_absence
  absent-unmatched =
      lists_key-keys intent.idempotency_key report.negative_match_idempotency_keys
        (complete_of report.order_history_complete _ absent).1

pub unknown_state : (s : OrderState) → is_unknown s ≡ true → s ≡ OrderState.submission_unknown
unknown_state s h = ground arith

module _ (w : World) (match local : BrokerOrder)
    (exact : matches_exactly w match local ≡ true) where
  pub exact-environment : match.environment ≡ w.environment
  unfolding matches_exactly
  exact-environment = ground arith

  pub exact-contract : match.contract ≡ local.contract
  unfolding matches_exactly
  exact-contract = contract_same match.contract local.contract (ground arith)

  pub exact-side : match.side ≡ local.side
  unfolding matches_exactly
  exact-side = ground arith

  pub exact-quantity : match.quantity ≡ local.quantity
  unfolding matches_exactly
  exact-quantity = ground arith

  pub exact-limit : match.limit_price ≡ local.limit_price
  unfolding matches_exactly
  exact-limit = ground arith

  settled : is_unsettled match.state ≡ false
  unfolding matches_exactly
  settled = ground arith

  pub exact-not_submitting : match.state ≢ OrderState.submitting
  exact-not_submitting e =
      let is : is_unsettled match.state ≡ true = ap is_unsettled e in cc (is, settled)

  pub exact-not_unknown : match.state ≢ OrderState.submission_unknown
  exact-not_unknown e =
      let is : is_unsettled match.state ≡ true = ap is_unsettled e in cc (is, settled)

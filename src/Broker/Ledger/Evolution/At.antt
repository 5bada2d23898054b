-- ===== src/Broker/Ledger/Evolution/At.antt =====
-- app/broker/shadow_ledger.py: an order under one key, from one dictionary of orders to another.
use sentry.Prelude.{ℕ, ◌≡◌, refl, ap, inl, inr, ◌≢◌, some, arith, Bool-cases, ◌==◌, ==_iff}
use sentry.Prelude.Dict.{Dict, lookup, insert, lookup-insert}
use sentry.Broker.Ledger.State.{LedgerOrder}
use sentry.Broker.Ledger.Evolution.{IsLater, IsLater-refl, IsLater-trans}

-- What stands under `k` in one dictionary stands under it in the other, in a later version.
abbrev pub EvolvesAt : ℕ → Dict LedgerOrder → Dict LedgerOrder → Type 0
EvolvesAt k d d' =
    (item : LedgerOrder)
    → lookup k d ≡ some item
    → (item' : LedgerOrder) × (lookup k d' ≡ some item') × IsLater item.published item'.published

pub EvolvesAt-refl : (k : ℕ) (d : Dict LedgerOrder) → EvolvesAt k d d
EvolvesAt-refl k d item e = (item, e, IsLater-refl item.published)

pub EvolvesAt-trans :
    (k : ℕ) (a b c : Dict LedgerOrder) → EvolvesAt k a b → EvolvesAt k b c → EvolvesAt k a c
EvolvesAt-trans k a b c h g item e =
    let (item', e', later) = h item e in
    let (item'', e'', later') = g item' e' in
    (item'', e'', IsLater-trans item.published item'.published item''.published later later')

-- A later version is written over the order that stands there.
pub EvolvesAt-insert :
    (k key : ℕ) (old item : LedgerOrder) (d : Dict LedgerOrder)
    → lookup key d ≡ some old
    → IsLater old.published item.published
    → EvolvesAt k d (insert key item d)
EvolvesAt-insert k key old item d found later got e = elim (Bool-cases (k == key)) [
  | inl same ↦
      let here : lookup k (insert key item d) ≡ some item =
        rw (lookup-insert k key item d) (rw same refl) in
      let one : got ≡ old = ground (arith, ap (λ j. lookup j d) ((==_iff k key).0 same)) in
      (item, here, rw one later)
  | inr other ↦ (got, rw (lookup-insert k key item d) (rw other e), IsLater-refl got.published)
]

-- Another key is written.
pub EvolvesAt-insert_ne :
    (k key : ℕ) (item : LedgerOrder) (d : Dict LedgerOrder)
    → k ≢ key
    → EvolvesAt k d (insert key item d)
EvolvesAt-insert_ne k key item d ne got e =
    (got, rw (lookup-insert k key item d) (ground arith), IsLater-refl got.published)

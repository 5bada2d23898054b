-- ===== src/Prelude/Dict.antt =====
-- A Python dict keyed by identifiers, in insertion order.
use Prim.Native.Nat.{ℕ, ◌+◌, ◌≤◌}
use mathlib.Core.Path.{◌≡◌, refl, sym, subst₂}
use mathlib.Core.Logic.{◌≢◌, inl, inr}
use mathlib.Core.Option.{Option, none, some}
use mathlib.Core.List.{List, [], ◌∷◌}
use native.Mathlib.Omega.{arith}
use sentry.Prelude.Tests.{Bool-cases, ==_iff, ◌==◌, if◌then◌else◌}

abbrev pub Dict {ℓ} : Type ℓ → Type ℓ
Dict V = List (ℕ × V)

module _ {ℓ} {V : Type ℓ} where
  abbrev pub keys : Dict V → List ℕ
  keys [] = []
  keys (first ∷ rest) = first.0 ∷ keys rest

  -- `d[key] = v`, in the place where the key stands, or else last
  abbrev pub insert : ℕ → V → Dict V → Dict V
  insert key v [] = (key, v) ∷ []
  insert key v (first ∷ rest) =
      if key == first.0 then (key, v) ∷ rest else first ∷ insert key v rest

  -- `del d[key]`
  abbrev pub erase : ℕ → Dict V → Dict V
  erase key [] = []
  erase key (first ∷ rest) = if key == first.0 then rest else first ∷ erase key rest

  -- `d.get(key)`
  abbrev pub lookup : ℕ → Dict V → Option V
  lookup key [] = none
  lookup key ((other, w) ∷ rest) = if key == other then some w else lookup key rest

  pub lookup-insert :
      (j k : ℕ) (v : V) (d : Dict V)
      → lookup j (insert k v d) ≡ (if j == k then some v else lookup j d)
  lookup-insert j k v [] = ground arith
  lookup-insert j k v (e ∷ d) = ground (arith, lookup-insert j k v d)

  pub lookup-insert_self : (k : ℕ) (v : V) (d : Dict V) → lookup k (insert k v d) ≡ some v
  lookup-insert_self k v d = ground (arith, lookup-insert k k v d)

  pub lookup-erase_ne :
      (other key : ℕ) (d : Dict V) → other ≢ key → lookup other (erase key d) ≡ lookup other d
  lookup-erase_ne other key [] ne = refl
  lookup-erase_ne other key (first ∷ rest) ne = ground (arith, lookup-erase_ne other key rest ne)

-- Sums over the values, and predicates of each entry, under the updates.
module _ {ℓ} {V : Type ℓ} (f : V → ℕ) where
  abbrev pub sum_values : Dict V → ℕ
  sum_values [] = 0
  sum_values ((_, v) ∷ d) = f v + sum_values d

  pub sum_values-insert :
      (k : ℕ) (v old : V) (d : Dict V)
      → lookup k d ≡ some old
      → sum_values (insert k v d) + f old ≡ sum_values d + f v
  sum_values-insert k v old [] e = cc
  sum_values-insert k v old (x ∷ d) e = grind (arith, sum_values-insert k v old d)

  pub sum_values-insert_le :
      (k : ℕ) (v : V) (d : Dict V) → sum_values (insert k v d) ≤ sum_values d + f v
  sum_values-insert_le k v [] = omega arith
  sum_values-insert_le k v (x ∷ d) = ground (arith, sum_values-insert_le k v d)

module _ {ℓ κ} {V : Type ℓ} (P : ℕ → V → Type κ) where
  abbrev pub AllEntries : Dict V → Type κ
  AllEntries [] = Unit
  AllEntries ((k, v) ∷ d) = P k v × AllEntries d

  pub AllEntries-insert :
      (k : ℕ) (v : V) (d : Dict V) → AllEntries d → P k v → AllEntries (insert k v d)
  AllEntries-insert k v [] h p = (p, tt)
  AllEntries-insert k v ((j, w) ∷ d) h p = elim (Bool-cases (k == j)) [
    | inl e ↦ rw e (p, h.1)
    | inr e ↦ rw e (h.0, AllEntries-insert k v d h.1 p)
  ]

  pub AllEntries-erase : (k : ℕ) (d : Dict V) → AllEntries d → AllEntries (erase k d)
  AllEntries-erase k [] h = tt
  AllEntries-erase k ((j, w) ∷ d) h = elim (Bool-cases (k == j)) [
    | inl e ↦ rw e h.1
    | inr e ↦ rw e (h.0, AllEntries-erase k d h.1)
  ]

  pub AllEntries-lookup : (k : ℕ) (v : V) (d : Dict V) → AllEntries d → lookup k d ≡ some v → P k v
  AllEntries-lookup k v [] h e = absurd (cc e)
  AllEntries-lookup k v ((j, w) ∷ d) h e = elim (Bool-cases (k == j)) [
    | inl same ↦
        let key : j ≡ k = sym ((==_iff k j).0 same) in
        let value : w ≡ v = ground arith in subst₂ P key value h.0
    | inr other ↦ AllEntries-lookup k v d h.1 (rw other at e)
  ]

pub value-le-sum_values {ℓ} :
    {V : Type ℓ} (f : V → ℕ) (k : ℕ) (v : V) (d : Dict V)
    → lookup k d ≡ some v
    → f v ≤ sum_values f d
value-le-sum_values f k v [] e = cc
value-le-sum_values f k v ((j, w) ∷ d) e = grind (arith, value-le-sum_values f k v d)

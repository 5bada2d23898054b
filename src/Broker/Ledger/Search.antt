-- ===== src/Broker/Ledger/Search.antt =====
-- app/broker/shadow_ledger.py: what `_find_order` finds stands in the dictionary under its key.
use sentry.Prelude.{ℕ, ◌≡◌, inl, inr, Option, none, some, List, [], ◌∷◌, Bool-cases, Option-cases}
use sentry.Prelude.Dict.{Dict, lookup, keys}
use sentry.Domain.Market.{Label}
use sentry.Broker.Ledger.State.{LedgerOrder, Context}
use sentry.Broker.Ledger.Cancel.{
  Target, find_order, find_id, find_broker_id, has_broker_id, or_else, match_broker_id,
}

abbrev pub Stands : Dict LedgerOrder → Option (ℕ × LedgerOrder) → Type 0
Stands d none = Unit
Stands d (some (key, item)) = lookup key d ≡ some item

or_else-Stands :
    (d : Dict LedgerOrder) (a b : Option (ℕ × LedgerOrder))
    → Stands d a
    → Stands d b
    → Stands d (or_else a b)
or_else-Stands d none b h k = k
or_else-Stands d (some found) b h k = h

find_id-Stands : (id : Option ℕ) (d : Dict LedgerOrder) → Stands d (find_id id d)
find_id-Stands none d = tt
find_id-Stands (some id) d = elim (Option-cases (lookup id d)) [
  | inl e ↦ rw (e, find_id) tt
  | inr (item, e) ↦ rw (e, find_id) e
]

match_broker_id-Stands :
    (text : Label) (key : ℕ) (d : Dict LedgerOrder)
    → Stands d (match_broker_id text key (lookup key d))
match_broker_id-Stands text key d = elim (Option-cases (lookup key d)) [
  | inl e ↦ rw (e, match_broker_id) tt
  | inr (item, e) ↦ elim (Bool-cases (has_broker_id text item)) [
    | inl here ↦ rw (e, match_broker_id) (rw here e)
    | inr there ↦ rw (e, match_broker_id) (rw there tt)
  ]
]

find_broker_id-Stands :
    (text : Label) (d : Dict LedgerOrder) (ids : List ℕ) → Stands d (find_broker_id text d ids)
find_broker_id-Stands text d [] = tt
find_broker_id-Stands text d (key ∷ rest) =
    or_else-Stands d (match_broker_id text key (lookup key d)) (find_broker_id text d rest)
      (match_broker_id-Stands text key d) (find_broker_id-Stands text d rest)

pub find_order-Stands :
    (x : Context) (target : Target) (d : Dict LedgerOrder) → Stands d (find_order x target d)
unfolding find_order
find_order-Stands x (Target.by_uuid id) d = find_id-Stands (some id) d
find_order-Stands x (Target.by_text text) d =
    or_else-Stands d (find_id (x.parse_uuid text) d) (find_broker_id text d (keys d))
      (find_id-Stands (x.parse_uuid text) d) (find_broker_id-Stands text d (keys d))

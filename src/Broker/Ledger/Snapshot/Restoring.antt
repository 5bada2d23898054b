-- ===== src/Broker/Ledger/Snapshot/Restoring.antt =====
-- app/broker/shadow_ledger.py: what `restore_state` and `export_state` guarantee.
use sentry.Prelude.{
  ℕ, ◌≡◌, refl, ap, ◌∙◌, ◌⊎◌, inl, inr, true, false, none, some, List, [], ◌∷◌, ◌++◌, arith,
  Option-cases, is_empty, ◌==◌, elem,
}
use sentry.Prelude.Int.{pos, ltb_ℤ}
use sentry.Prelude.Dict.{Dict, lookup, insert, lookup-insert, AllEntries}
use sentry.Domain.Market.{Uuid}
use sentry.Domain.Order.{Position, BrokerCommandIntent}
use sentry.Broker.Ledger.State.{ShadowLedger, Context}
use sentry.Broker.Ledger.Audit.{
  discrepancies, Discrepancy, note_if, order_issues, position_issues, reconciles,
}
use sentry.Broker.Ledger.Holdings.{available_position_quantity, buying_power}
use sentry.Broker.Ledger.Snapshot.{
  LedgerSnapshot, RestoreError, values, index_into, order_key, position_key, quote_key,
  proposal_key, sort_dates, to_set, set_dates, export_state, apply_snapshot, restore_error,
  restore_state, fresh,
}

position_issues-apply_snapshot :
    (s : LedgerSnapshot) (l m : ShadowLedger) (d : Dict Position)
    → position_issues (apply_snapshot s l) d ≡ position_issues (apply_snapshot s m) d
unfolding position_issues apply_snapshot available_position_quantity
position_issues-apply_snapshot s l m [] = refl
position_issues-apply_snapshot s l m ((i, p) ∷ rest) =
    rw (position_issues-apply_snapshot s l m rest) refl

discrepancies-apply_snapshot :
    (s : LedgerSnapshot) (l m : ShadowLedger)
    → discrepancies (apply_snapshot s l) ≡ discrepancies (apply_snapshot s m)
unfolding discrepancies apply_snapshot buying_power
discrepancies-apply_snapshot s l m =
    let k = apply_snapshot s m in
    ap
      (λ rest. note_if (ltb_ℤ k.cash (pos 0)) Discrepancy.cash_is_negative (
        note_if (ltb_ℤ (buying_power k) (pos 0)) Discrepancy.reservations_exceed_cash
          (order_issues k.orders rest)))
      (position_issues-apply_snapshot s l m k.positions)

restored :
    (x : Context) (s : LedgerSnapshot) (l : ShadowLedger)
    → restore_error x s l ≡ none
    → (is_empty (discrepancies (apply_snapshot s (fresh l))) ≡ true)
      × (s.namespace ≡ l.namespace)
      × (s.initial_cash ≡ l.initial_cash)
unfolding restore_error
restored x s l h = ground arith

-- Restoring is all or nothing: it either raises and leaves the ledger as it was, or puts the whole
-- snapshot in place, which then has the ledger's namespace and initial cash, and the ledger
-- reconciles.
pub restore_state-reconciles :
    (x : Context) (s : LedgerSnapshot) (l : ShadowLedger)
    → ((e : RestoreError) × (restore_state x s l ≡ (some e, l)))
      ⊎ ((restore_state x s l ≡ (none, apply_snapshot s l))
          × (reconciles (apply_snapshot s l) ≡ true)
          × (s.namespace ≡ l.namespace)
          × (s.initial_cash ≡ l.initial_cash))
unfolding restore_state reconciles
restore_state-reconciles x s l = elim (Option-cases (restore_error x s l)) [
  | inl e ↦
      let (clean, same, cash) = restored x s l e in
      inr (
        rw (e, restore_state) refl,
        rw (discrepancies-apply_snapshot s l (fresh l)) clean,
        same,
        cash,
      )
  | inr (error, e) ↦ inl (error, rw (e, restore_state) refl)
]

-- Every item stands under its own key, and no key stands twice.
module _ {V : Type 0} (key : V → ℕ) where
  abbrev pub IsIndexed : Dict V → Type 0
  IsIndexed [] = Unit
  IsIndexed ((k, v) ∷ rest) =
      (key v ≡ k) × AllEntries (λ j w. (j == k) ≡ false) rest × IsIndexed rest

  insert_new : (k : ℕ) (v : V) (d : Dict V) → lookup k d ≡ none → insert k v d ≡ d ++ (k, v) ∷ []
  insert_new k v [] h = refl
  insert_new k v ((j, w) ∷ rest) h = ground (arith, insert_new k v rest)

  still_absent :
      (k : ℕ) (v : V) (d rest : Dict V)
      → AllEntries (λ j w. (j == k) ≡ false) rest
      → AllEntries (λ j w. lookup j d ≡ none) rest
      → AllEntries (λ j w. lookup j (insert k v d) ≡ none) rest
  still_absent k v d [] h a = tt
  still_absent k v d ((j, w) ∷ rest) h a =
      (rw (lookup-insert j k v d) (ground arith), still_absent k v d rest h.1 a.1)

  append_assoc : (a : Dict V) (e : ℕ × V) (b : Dict V) → (a ++ e ∷ []) ++ b ≡ a ++ e ∷ b
  append_assoc [] e b = refl
  append_assoc (x ∷ a) e b = ap (λ t. x ∷ t) (append_assoc a e b)

  append_nil : (a : Dict V) → a ≡ a ++ []
  append_nil [] = refl
  append_nil (x ∷ a) = ap (λ t. x ∷ t) (append_nil a)

  index_into-values :
      (d acc : Dict V)
      → IsIndexed d
      → AllEntries (λ j w. lookup j acc ≡ none) d
      → index_into key acc (values d) ≡ acc ++ d
  unfolding index_into values
  index_into-values [] acc h a = append_nil acc
  index_into-values ((k, v) ∷ rest) acc h a =
      let grown = insert_new k v acc a.0 in
      ap (λ j. index_into key (insert j v acc) (values rest)) h.0
      ∙ (index_into-values rest (insert k v acc) h.2 (still_absent k v acc rest h.1 a.1)
          ∙ rw grown (append_assoc acc (k, v) rest))

  values-index : (d : Dict V) → IsIndexed d → index_into key [] (values d) ≡ d
  values-index d h = index_into-values d [] h (none_there d)
    where
      none_there : (d : Dict V) → AllEntries (λ j w. lookup {V = V} j [] ≡ none) d
      none_there [] = tt
      none_there (_ ∷ d) = (refl, none_there d)

-- Every dictionary of the ledger that the snapshot stores without its keys.
abbrev pub IsKeyed : ShadowLedger → Type 0
IsKeyed l =
    IsIndexed order_key l.orders
    × IsIndexed position_key l.positions
    × IsIndexed quote_key l.quotes
    × IsIndexed proposal_key l.proposals

-- What a ledger is constructed with.
abbrev pub SameSettings : ShadowLedger → ShadowLedger → Type 0
SameSettings l m =
    (m.initial_cash ≡ l.initial_cash)
    × (m.account_kind ≡ l.account_kind)
    × (m.environment ≡ l.environment)
    × (m.max_quote_age ≡ l.max_quote_age)
    × (m.namespace ≡ l.namespace)

-- No identifier is listed twice, as in a set.
abbrev pub IsDistinct : List Uuid → Type 0
IsDistinct [] = Unit
IsDistinct (id ∷ ids) = (elem id ids ≡ false) × IsDistinct ids

IsDistinct-to_set : (ids : List Uuid) → IsDistinct ids → to_set ids ≡ ids
unfolding to_set
IsDistinct-to_set [] h = refl
IsDistinct-to_set (id ∷ ids) h = rw h.0 (ap (λ l. id ∷ l) (IsDistinct-to_set ids h.1))

IsDistinct-set_dates :
    (sort : List Uuid → List Uuid) (dates : Dict (List Uuid))
    → AllEntries (λ day ids. IsDistinct (sort ids)) dates
    → set_dates (sort_dates sort dates) ≡ sort_dates sort dates
unfolding set_dates sort_dates
IsDistinct-set_dates sort [] h = refl
IsDistinct-set_dates sort ((day, ids) ∷ rest) h =
    rw (IsDistinct-to_set (sort ids) h.0, IsDistinct-set_dates sort rest h.1) refl

-- A ledger whose orders, positions, quotes and proposals stand under their own keys comes back from
-- its own export: written over any ledger of the same settings, the snapshot gives the exported
-- ledger, with the identifiers of each date sorted; a set must list no identifier twice when sorted.
pub apply_snapshot-export_state :
    (sort : List Uuid → List Uuid) (x : Context) (commands : List BrokerCommandIntent)
    (l m : ShadowLedger)
    → IsKeyed l
    → AllEntries (λ day ids. IsDistinct (sort ids)) l.entry_orders_by_date
    → SameSettings l m
    → apply_snapshot (export_state sort x commands l) m
      ≡ record l { entry_orders_by_date = sort_dates sort l.entry_orders_by_date }
unfolding apply_snapshot export_state
apply_snapshot-export_state sort x commands l m h sets same =
    rw
      (
        values-index order_key l.orders h.0,
        values-index position_key l.positions h.1,
        values-index quote_key l.quotes h.2,
        values-index proposal_key l.proposals h.3,
        IsDistinct-set_dates sort l.entry_orders_by_date sets,
      )
      (rw (same.0, same.1, same.2, same.3, same.4) refl)

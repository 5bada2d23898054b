-- ===== src/Broker/Ledger/Snapshot/Tests.antt =====
-- app/broker/shadow_ledger.py: one ledger with an open order, exported and restored.
use sentry.Prelude.{◌≡◌, refl, ◌⊎◌, true, none, some, []}
use sentry.Prelude.Dict.{AllEntries}
use sentry.Broker.Ledger.State.{new}
use sentry.Broker.Ledger.Orders.{submit}
use sentry.Broker.Ledger.Audit.{reconciles}
use sentry.Broker.Ledger.History.{run}
use sentry.Broker.Ledger.Snapshot.{
  LedgerSnapshot, RestoreError, sort_dates, export_state, apply_snapshot, restore_state,
}
use sentry.Broker.Ledger.Snapshot.Restoring.{
  IsKeyed, IsDistinct, SameSettings, restore_state-reconciles, apply_snapshot-export_state,
}
use sentry.Broker.Ledger.Tests.{at_time, start, placed}

placed-IsKeyed : IsKeyed placed
unfolding run submit new sentry.Broker.Ledger.History.apply
    sentry.Broker.Ledger.Orders.command_error sentry.Broker.Ledger.Orders.submit_new
    sentry.Broker.Ledger.Orders.store_submission sentry.Broker.Ledger.Orders.submit_reasons
    sentry.Broker.Ledger.Orders.duplicate_order sentry.Broker.Ledger.Holdings.buying_power
    sentry.Prelude.Int.◌-ℤ◌ sentry.Broker.Ledger.Holdings.reserved_buying_power
    sentry.Broker.Ledger.Orders.submitted_order
placed-IsKeyed = ((refl, tt, tt), tt, tt, tt)

placed-IsDistinct : AllEntries (λ day ids. IsDistinct ids) placed.entry_orders_by_date
unfolding run submit new sentry.Broker.Ledger.History.apply
    sentry.Broker.Ledger.Orders.command_error sentry.Broker.Ledger.Orders.submit_new
    sentry.Broker.Ledger.Orders.store_submission sentry.Broker.Ledger.Orders.submit_reasons
    sentry.Broker.Ledger.Orders.duplicate_order sentry.Broker.Ledger.Holdings.buying_power
    sentry.Prelude.Int.◌-ℤ◌ sentry.Broker.Ledger.Holdings.reserved_buying_power
    sentry.Broker.Ledger.Orders.submitted_order
placed-IsDistinct = ((refl, tt), tt)

placed-SameSettings : SameSettings placed start
unfolding run submit new sentry.Broker.Ledger.History.apply
    sentry.Broker.Ledger.Orders.command_error sentry.Broker.Ledger.Orders.submit_new
    sentry.Broker.Ledger.Orders.store_submission sentry.Broker.Ledger.Orders.submit_reasons
    sentry.Broker.Ledger.Orders.duplicate_order sentry.Broker.Ledger.Holdings.buying_power
    sentry.Prelude.Int.◌-ℤ◌ sentry.Broker.Ledger.Holdings.reserved_buying_power
    sentry.Broker.Ledger.Orders.submitted_order
placed-SameSettings = (refl, refl, refl, refl, refl)

abbrev exported : LedgerSnapshot
exported = export_state (λ ids. ids) (at_time 150) [] placed

apply_snapshot-export_state_example :
    apply_snapshot exported start
    ≡ record placed { entry_orders_by_date = sort_dates (λ ids. ids) placed.entry_orders_by_date }
apply_snapshot-export_state_example =
    apply_snapshot-export_state (λ ids. ids) (at_time 150) [] placed start placed-IsKeyed
      placed-IsDistinct placed-SameSettings

restore_state-reconciles_example :
    ((e : RestoreError) × (restore_state (at_time 160) exported start ≡ (some e, start)))
    ⊎ ((restore_state (at_time 160) exported start ≡ (none, apply_snapshot exported start))
        × (reconciles (apply_snapshot exported start) ≡ true)
        × (exported.namespace ≡ start.namespace)
        × (exported.initial_cash ≡ start.initial_cash))
restore_state-reconciles_example = restore_state-reconciles (at_time 160) exported start

-- The export is accepted.
exported_restored : (restore_state (at_time 160) exported start).0 ≡ none
unfolding restore_state sentry.Broker.Ledger.Snapshot.restore_error export_state apply_snapshot
    sentry.Broker.Ledger.Snapshot.distinct sentry.Broker.Ledger.Snapshot.values
    sentry.Broker.Ledger.Snapshot.index_into sort_dates sentry.Broker.Ledger.Snapshot.set_dates
    sentry.Broker.Ledger.Snapshot.to_set sentry.Broker.Ledger.Audit.discrepancies
    sentry.Broker.Ledger.Audit.order_issues sentry.Broker.Ledger.Audit.position_issues
    sentry.Broker.Ledger.Holdings.buy_reserve run submit new sentry.Broker.Ledger.History.apply
    sentry.Broker.Ledger.Orders.command_error sentry.Broker.Ledger.Orders.submit_new
    sentry.Broker.Ledger.Orders.store_submission sentry.Broker.Ledger.Orders.submit_reasons
    sentry.Broker.Ledger.Orders.duplicate_order sentry.Broker.Ledger.Holdings.buying_power
    sentry.Prelude.Int.◌-ℤ◌ sentry.Broker.Ledger.Holdings.reserved_buying_power
    sentry.Broker.Ledger.Orders.submitted_order
exported_restored = refl

-- ===== src/App/Device.antt =====
-- srad-app/src/generic_app.rs: the trait `MetricStore` and `impl Device`.
use srad.Prelude.{Option, none, some, List, Result, ok, err}
use srad.Types.Text.{Text}
use srad.App.Metrics.{MetricId, MetricBirthDetails, MetricDetails}
use srad.App.Payloads.{DData}
use srad.App.Rebirth.{RebirthReason}

pub data StateUpdateError : Type 0 where
  invalid_value : StateUpdateError
  unknown_metric : StateUpdateError

-- The trait that an application implements. A method that takes `&mut self` returns the new store.
pub record MetricStore : Type 1 where
  pub Store : Type 0
  pub set_stale : Store → Store
  pub update_from_birth :
      Store → List (MetricBirthDetails × MetricDetails) → Store × Result StateUpdateError (Unit {0})
  pub update_from_data :
      Store → List (MetricId × MetricDetails) → Store × Result StateUpdateError (Unit {0})

pub data LifecycleState : Type 0 where
  birthed : LifecycleState
  stale : LifecycleState

pub record Device (Store : Type 0) : Type 0 where
  pub name : Text
  pub lifecycle_state : LifecycleState
  pub store : Option Store

unfoldable pub new : {Store : Type 0} → Text → Device Store
new n = record { name = n; lifecycle_state = stale; store = none }

unfoldable pub register_metric_store : {Store : Type 0} → Store → Device Store → Device Store
register_metric_store s d = record d { store = some s }

abbrev pub update_reason : StateUpdateError → RebirthReason
update_reason invalid_value = RebirthReason.invalid_payload
update_reason unknown_metric = RebirthReason.unknown_metric

module _ (M : MetricStore) where
  open M use {Store}

  -- `if let Some(x) = &mut self.store { x.set_stale() }`
  unfoldable pub stale_store : Option Store → Option Store
  stale_store none = none
  stale_store (some s) = some (M.set_stale s)

  unfoldable pub device_set_stale : Device Store → Device Store
  unfolding stale_store
  device_set_stale d = record d { lifecycle_state = stale; store = stale_store d.store }

  abbrev after_birth :
      Device Store
      → Store × Result StateUpdateError (Unit {0})
      → Result RebirthReason (Unit {0}) × Device Store
  after_birth d (s, ok _) = (ok tt, record d { store = some s; lifecycle_state = birthed })
  after_birth d (s, err _) = (err RebirthReason.invalid_payload, record d { store = some s })

  unfoldable pub device_handle_birth :
      List (MetricBirthDetails × MetricDetails)
      → Device Store
      → Result RebirthReason (Unit {0}) × Device Store
  device_handle_birth details d = elim d.store [
    | none ↦ (ok tt, record d { lifecycle_state = birthed })
    | some s ↦ after_birth d (M.update_from_birth s details)
  ]

  unfoldable pub device_handle_death : Device Store → Device Store
  unfolding device_set_stale
  device_handle_death d = device_set_stale d

  abbrev after_data :
      Device Store
      → Store × Result StateUpdateError (Unit {0})
      → Result RebirthReason (Unit {0}) × Device Store
  after_data d (s, ok _) = (ok tt, record d { store = some s })
  after_data d (s, err e) = (err (update_reason e), record d { store = some s })

  device_data :
      List (MetricId × MetricDetails)
      → Device Store
      → Result RebirthReason (Unit {0}) × Device Store
  device_data details d = elim d.store [
    | none ↦ (ok tt, d)
    | some s ↦ after_data d (M.update_from_data s details)
  ]

  unfoldable pub device_handle_data :
      DData → Device Store → Result RebirthReason (Unit {0}) × Device Store
  unfolding device_data
  device_handle_data data' d = elim d.lifecycle_state [
    | stale ↦ (err RebirthReason.recorded_state_stale, d)
    | birthed ↦ device_data (data'.metrics_details) d
  ]

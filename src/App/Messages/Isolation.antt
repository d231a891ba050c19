-- ===== src/App/Messages/Isolation.antt =====
-- The devices of a node are kept apart.
use srad.Prelude.{
  Bool, false, Option, none, some, lookup, lookup-insert, list_eq, nat_eq, ◌≡◌, refl, arith, Result,
  ok, err,
}
use srad.Types.Text.{Text}
use srad.App.Payloads.{NData}
use srad.App.Rebirth.{RebirthReason}
use srad.App.Device.{
  MetricStore, Device, StateUpdateError, device_handle_birth, device_handle_data,
  device_handle_death,
}
use srad.App.Node.{Node, ResequenceableEvent}
use srad.App.Messages.{
  process_in_sequence_message, with_device, after_update, update_store, known_device,
  get_or_create_device,
}

-- The message is for the device `name`.
abbrev pub concerns : ResequenceableEvent → Text → Bool
concerns (ResequenceableEvent.ndata d) name = false
concerns (ResequenceableEvent.dbirth to b) name = list_eq.beq to name
concerns (ResequenceableEvent.ddeath to) name = list_eq.beq to name
concerns (ResequenceableEvent.ddata to d) name = list_eq.beq to name

module _ (M : MetricStore) where
  open M use {Store}

  with_device-other :
      (to name : Text) (n : Node Store) (r : Result RebirthReason (Unit {0}) × Device Store)
      → list_eq.beq to name ≡ false
      → lookup name (with_device M to n r).1.devices ≡ lookup name n.devices
  with_device-other to name n (r, d) e = ground (arith, e, lookup-insert to name d n.devices)

  known_device-other :
      (f : Device Store → Result RebirthReason (Unit {0}) × Device Store) (to name : Text)
      (o : Option (Device Store)) (n : Node Store)
      → list_eq.beq to name ≡ false
      → lookup name (known_device M f to o n).1.devices ≡ lookup name n.devices
  known_device-other f to name none n e = refl
  known_device-other f to name (some d) n e = with_device-other to name n (f d) e

  after_update-devices :
      (n : Node Store) (r : Store × Result StateUpdateError (Unit {0}))
      → (after_update M n r).1.devices ≡ n.devices
  after_update-devices n (s, ok u) = refl
  after_update-devices n (s, err e) = refl

  update_store-other :
      (d : NData) (o : Option Store) (name : Text) (n : Node Store)
      → lookup name (update_store M d o n).1.devices ≡ lookup name n.devices
  update_store-other d none name n = refl
  update_store-other d (some s) name n =
      rw (after_update-devices n (M.update_from_data s d.metrics_details)) refl

  -- A message that is processed leaves every device that it is not for as it was, or unknown if it
  -- was unknown: a node's data leaves all of them, and a device's birth, death or data all others.
  pub process-other_devices :
      (m : ResequenceableEvent) (name : Text) (n : Node Store)
      → concerns m name ≡ false
      → lookup name (process_in_sequence_message M m n).1.devices ≡ lookup name n.devices
  unfolding process_in_sequence_message
  process-other_devices (ResequenceableEvent.ndata d) name n e = update_store-other d n.store name n
  process-other_devices (ResequenceableEvent.dbirth to b) name n e =
      with_device-other to name n
        (device_handle_birth M b.metrics_details (get_or_create_device M to n)) e
  process-other_devices (ResequenceableEvent.ddeath to) name n e =
      known_device-other (λ d. (ok tt, device_handle_death M d)) to name (lookup to n.devices) n e
  process-other_devices (ResequenceableEvent.ddata to d) name n e =
      known_device-other (device_handle_data M d) to name (lookup to n.devices) n e

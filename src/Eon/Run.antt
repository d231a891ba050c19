-- ===== src/Eon/Run.antt =====
-- What an edge node meets, as turns of its tasks and uses of its handles, and its run: `EoN::run`,
-- `Node::run` and `Device::run` of srad-eon. Any task may be the next.
use srad.Prelude.{
  ℕ, Bool, true, false, Option, none, some, List, [], ◌∷◌, not, if◌then◌else◌, and_then, is_some,
  lookup, insert, nat_eq,
}
use srad.Types.Text.{Text}
use srad.Types.Payload.{Metric}
use srad.Types.Message.{Message, StatePayload}
use srad.Eon.State.{EonState, Core, World, create_last_will, set_last_will}
use srad.Eon.Device.{Device, DeviceHandleRequest, device_turn, device_publish}
use srad.Eon.DeviceMap
use srad.Eon.DeviceMap.{DeviceMap}
use srad.Eon.Templates.{TemplateRegistry}
use srad.Eon.Node.{Node, change_state, node_rebirth, try_online}
use srad.Eon.Session.{
  on_offline, on_primary_host_state, on_sparkplug_message, cancel, node_publish, register_device,
  unregister_device,
}

-- A device's task and its handle are the number of its channel; the first number of a turn is the
-- clock's reading, where it is read.
pub data Turn : Type 0 where
  client_online : ℕ → Turn
  client_offline : Turn
  host_state : ℕ → Text → StatePayload → Turn
  retry_time : ℕ → Turn
  rebirth_asked : Turn
  rebirth_turn : Turn
  node_message : ℕ → Message → Turn
  device_task : ℕ → Option DeviceHandleRequest → Turn
  publish_metrics : Bool → List Metric → Turn
  device_publish_metrics : ℕ → Bool → List Metric → Turn
  registers_device : Text → Turn
  unregisters_device : Text → Turn
  cancelled : Turn
  stopped : Turn

-- The clock's reading, where the turn has one.
abbrev pub reading : ℕ → Turn → ℕ
reading t (client_online now) = now
reading t (host_state now host p) = now
reading t (retry_time now) = now
reading t (node_message now m) = now
reading t _ = t

abbrev pub with_device : ℕ → (Device × Core → Device × Core) → Node → Node
with_device k f n = elim (lookup k n.devices.tasks) [
  | none ↦ n
  | some d ↦
      let r = f (d, n.core) in
      record n { core = r.1; devices = record n.devices { tasks = insert k (r.0) n.devices.tasks } }
]

module _ (W : World) where
  -- `EoN::new_from_builder`, and the beginning of `EoN::run`.
  unfoldable pub start : Text → Text → Option Text → TemplateRegistry → ℕ → ℕ → Node
  unfolding DeviceMap.new create_last_will
  start group_id node_id primary_host_id templates cooldown retry_delay =
      let s : EonState = record {
        running = true;
        bdseq = 0;
        inner = record {
          seq = 0;
          online = false;
          birthed = false;
          primary_host_online = false;
          last_primary_host_timestamp = none;
        };
        group_id = group_id;
        edge_node_id = node_id;
        primary_host_id = primary_host_id;
      } in
      record {
        core = record {
          state = s;
          calls = set_last_will (create_last_will W.encode_payload s) ∷ [];
        };
        devices = DeviceMap.new templates;
        node_rebirth_request_cooldown = cooldown;
        retry_delay = retry_delay;
        last_node_rebirth_request = 0;
        template_registry = templates;
        rebirth_requested = false;
        client_online = false;
        retry_at = none;
      }

  -- The end of `EoN::run`: it waits for the client to be offline, or takes it to be.
  unfoldable pub stop : Node → Node
  unfolding on_offline
  stop n =
      let n' = if n.core.state.inner.online then on_offline W n else n in
      change_state (λ s. record s { running = false }) n'

  unfoldable pub published : Bool → List Metric → Device × Core → Device × Core
  unfolding device_publish
  published try metrics (d, s) = (d, (device_publish W try metrics d s).1)

  unfoldable pub turn : Turn → Node → Option Node
  unfolding try_online on_offline on_primary_host_state node_rebirth on_sparkplug_message
      device_turn node_publish published register_device unregister_device cancel stop
  turn (client_online now) n = try_online W now (record n { client_online = true })
  turn client_offline n = some (on_offline W (record n { client_online = false }))
  turn (host_state now host payload) n =
      if not (is_some n.core.state.primary_host_id)
      then some n
      else on_primary_host_state W now host payload n
  turn (retry_time now) n =
      if not (is_some n.retry_at) then some n else try_online W now (record n { retry_at = none })
  turn rebirth_asked n = some (record n { rebirth_requested = true })
  turn rebirth_turn n =
      if not n.rebirth_requested
      then some n
      else node_rebirth W (record n { rebirth_requested = false })
  turn (node_message now m) n = on_sparkplug_message W now m n
  turn (device_task k request) n = some (with_device k (device_turn W request) n)
  turn (publish_metrics try metrics) n =
      some (record n { core = (node_publish W try metrics n.core).1 })
  turn (device_publish_metrics k try metrics) n = some (with_device k (published try metrics) n)
  turn (registers_device name) n = some (register_device W name n).1
  turn (unregisters_device name) n = some (unregister_device W name n)
  turn cancelled n = some (cancel W n)
  turn stopped n = some (stop n)

  unfoldable pub run : List Turn → Node → Option Node
  unfolding turn
  run [] n = some n
  run (x ∷ xs) n = and_then (turn x n) (run xs)

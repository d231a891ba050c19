-- ===== src/Eon/Session.antt =====
-- The rest of `Node`, `NodeHandle` and `EoN` of srad-eon/src/node.rs: what the edge node meets, and
-- its run. The callbacks of a metric manager may use the handles; what they do is then a turn of
-- its own.
use srad.Prelude.{
  ℕ, ◌-◌, Bool, true, false, Option, none, some, List, [], ◌∷◌, not, ltb, if◌then◌else◌, Result, ok,
  err, map_err, list_eq, nat_eq, and_then,
}
use srad.Types.Text.{Text, node_control_rebirth}
use srad.Types.Payload.{Payload, Value, Metric, fields, value}
use srad.Types.Topic.{NodeTopic, node_topic, ndata, validate_name}
use srad.Types.Message.{Message, MessageKind, StatePayload, decode}
use srad.Eon.State.{
  EonState, get_next_seq, online_swap, set_primary_host_online, reset_primary_host,
  update_primary_host_timestamp, set_dead, death_topic, generate_death_payload, create_last_will,
  Core, World, Call, publish_node_message, try_publish_node_message, disconnect,
  disconnect_with_will, set_last_will,
}
use srad.Eon.Device.{PublishError, no_metrics, state_error, sent}
use srad.Eon.DeviceMap.{
  DeviceMap, DeviceRegistrationError, on_death, add_device, remove_device, invalid_name,
}
use srad.Eon.Node.{Node, call, change_state, death, command_rebirth, try_online, succeeded}

abbrev pub is_host : Text → Option Text → Bool
is_host host none = false
is_host host (some expected) = list_eq.beq host expected

abbrev pub timestamp_of : StatePayload → ℕ
timestamp_of (StatePayload.online t) = t
timestamp_of (StatePayload.offline t) = t

abbrev pub is_rebirth_metric : Metric → Bool
is_rebirth_metric m = elim (fields m).alias [
  | some a ↦ false
  | none ↦ elim (fields m).name [ none ↦ false | some n ↦ list_eq.beq n node_control_rebirth ]
]

abbrev pub boolean_of : Option Value → Bool
boolean_of (some (Value.boolean_value b)) = b
boolean_of _ = false

-- The loop over the metrics of a command: the last rebirth metric counts.
unfoldable pub asks_rebirth : Bool → List Metric → Bool
asks_rebirth rebirth [] = rebirth
asks_rebirth rebirth (m ∷ ms) =
    asks_rebirth (if is_rebirth_metric m then boolean_of (value m) else rebirth) ms

abbrev pub ndata_topic : EonState → NodeTopic
ndata_topic s = record { topic = node_topic s.group_id ndata s.edge_node_id; message_type = ndata }

abbrev pub node_call : Bool → NodeTopic → Payload → Call
node_call true = try_publish_node_message
node_call false = publish_node_message

abbrev pub is_cmd : MessageKind → Bool
is_cmd MessageKind.cmd = true
is_cmd _ = false

module _ (W : World) where
  -- The new will is given to the event loop by `EoN::on_offline`, which waits for it.
  unfoldable pub on_offline : Node → Node
  unfolding reset_primary_host online_swap death create_last_will
  on_offline n =
      let n' = change_state (online_swap false) (change_state reset_primary_host n) in
      if not n.core.state.inner.online
      then n'
      else let n'' = death W n' in
        call (set_last_will (create_last_will W.encode_payload n''.core.state)) n''

  -- Publishing is tried, and stops.
  unfoldable pub on_primary_host_offline : Node → Node
  unfolding death_topic generate_death_payload set_dead on_death
  on_primary_host_offline n =
      if not n.core.state.inner.birthed
      then n
      else let n' = change_state set_dead (
          call
            (publish_node_message (death_topic n.core.state) (generate_death_payload n.core.state))
            n) in
        call disconnect (record n' { devices = on_death n'.devices })

  unfoldable pub on_accepted_state : ℕ → StatePayload → Bool × EonState → Node → Option Node
  unfolding set_primary_host_online try_online on_primary_host_offline
  on_accepted_state now payload (false, s) n = some n
  on_accepted_state now (StatePayload.online t) (true, s) n =
      try_online W now (change_state (λ _. set_primary_host_online true s) n)
  on_accepted_state now (StatePayload.offline t) (true, s) n =
      some (on_primary_host_offline (change_state (λ _. set_primary_host_online false s) n))

  unfoldable pub on_primary_host_state : ℕ → Text → StatePayload → Node → Option Node
  unfolding update_primary_host_timestamp on_accepted_state
  on_primary_host_state now host payload n =
      if not (is_host host n.core.state.primary_host_id)
      then some n
      else on_accepted_state now payload
          (update_primary_host_timestamp (timestamp_of payload) n.core.state) n

  -- `none` is the panic of the subtraction of durations, at a clock that was set back, as well.
  unfoldable pub on_rebirth_command : ℕ → Node → Option Node
  unfolding command_rebirth
  on_rebirth_command now n =
      if ltb now n.last_node_rebirth_request
      then none
      else if ltb (now - n.last_node_rebirth_request) n.node_rebirth_request_cooldown
      then some n
      else and_then (command_rebirth W n) λ n'. some (record n' { last_node_rebirth_request = now })

  -- The manager's `on_ncmd` is told of the metrics before the rebirth.
  unfoldable pub on_command : {E : Type 0} → ℕ → Result E Payload → Node → Option Node
  unfolding asks_rebirth on_rebirth_command
  on_command now (err e) n = some n
  on_command now (ok p) n =
      if asks_rebirth false p.metrics then on_rebirth_command now n else some n

  unfoldable pub on_sparkplug_message : ℕ → Message → Node → Option Node
  unfolding on_command decode
  on_sparkplug_message now m n =
      if is_cmd m.kind then on_command now (decode W.decode_payload m.payload) n else some n

  -- `NodeHandle::cancel`, but for the message that stops the run.
  unfoldable pub cancel : Node → Node
  unfolding set_dead death_topic generate_death_payload
  cancel n =
      if not n.core.state.running
      then n
      else let n' = call disconnect_with_will n in
        let s = n'.core.state in
        let n'' =
          call (try_publish_node_message (death_topic s) (generate_death_payload s))
            (change_state set_dead n') in
        if succeeded W n' then n'' else call disconnect n''

  -- `NodeHandle::try_publish_metrics_unsorted` and `publish_metrics_unsorted`.
  unfoldable pub node_publish : Bool → List Metric → Core → Result PublishError (Unit {0}) × Core
  unfolding get_next_seq
  node_publish try [] s = (err no_metrics, s)
  node_publish try (m ∷ ms) s =
      sent W (node_call try (ndata_topic s.state)) (m ∷ ms)
        (map_err state_error (get_next_seq s.state)) s

  abbrev pub added :
      Node
      → Result DeviceRegistrationError (ℕ × DeviceMap)
      → Result DeviceRegistrationError ℕ × Node
  added n (err e) = (err e, n)
  added n (ok (handle, m)) = (ok handle, record n { devices = m })

  unfoldable pub valid_device :
      Result Text (Unit {0}) → Text → Node → Result DeviceRegistrationError ℕ × Node
  unfolding add_device
  valid_device (err e) name n = (err (invalid_name e), n)
  valid_device (ok _) name n = added n (add_device W.hash name n.devices)

  unfoldable pub register_device : Text → Node → Result DeviceRegistrationError ℕ × Node
  unfolding validate_name valid_device
  register_device name n = valid_device (validate_name name) name n

  unfoldable pub unregister_device : Text → Node → Node
  unfolding remove_device
  unregister_device name n = record n { devices = remove_device name n.devices }

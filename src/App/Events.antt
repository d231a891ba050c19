-- ===== src/App/Events.antt =====
-- srad-app/src/events.rs: messages turned into the events of an application.
use srad.Prelude.{
  Bool, true, false, Option, none, some, List, ℕ, if◌then◌else◌, Result, ok, err, ◌>>=◌, map_err,
}
use srad.Types.Text.{Text}
use srad.Types.Payload.{Payload}
use srad.Types.Message.{Message, MessageKind, NodeMessage, DeviceMessage, is_encoded, decode}
use srad.App.Payloads.{
  PayloadError, decode_payload, NBirth, NDeath, NData, DBirth, DDeath, DData, nbirth_from_payload,
  ndeath_from_payload, ndata_from_payload, dbirth_from_payload, ddeath_from_payload,
  ddata_from_payload,
}

-- srad-app/src/lib.rs
pub record NodeIdentifier : Type 0 where
  pub group : Text
  pub node : Text

pub record PayloadErrorDetails : Type 0 where
  pub node_id : NodeIdentifier
  pub device : Option Text
  pub error : PayloadError

pub data MessageTryFromError : Type 0 where
  payload_error : PayloadErrorDetails → MessageTryFromError
  unsupported_verb : MessageTryFromError

pub data DecodedNodeEvent : Type 0 where
  birth : NBirth → DecodedNodeEvent
  death : NDeath → DecodedNodeEvent
  data_event : NData → DecodedNodeEvent

pub data NodeEvent : Type 0 where
  birth : NBirth → NodeEvent
  death : NDeath → NodeEvent
  data_event : NData → NodeEvent
  raw : Message → NodeEvent

pub data DecodedDeviceEvent : Type 0 where
  birth : DBirth → DecodedDeviceEvent
  death : DDeath → DecodedDeviceEvent
  data_event : DData → DecodedDeviceEvent

pub data DeviceEvent : Type 0 where
  birth : DBirth → DeviceEvent
  death : DDeath → DeviceEvent
  data_event : DData → DeviceEvent
  raw : Message → DeviceEvent

pub record AppNodeEvent : Type 0 where
  pub id : NodeIdentifier
  pub event : NodeEvent

pub record AppDeviceEvent : Type 0 where
  pub id : NodeIdentifier
  pub name : Text
  pub event : DeviceEvent

unfoldable pub node_event : DecodedNodeEvent → NodeEvent
node_event (DecodedNodeEvent.birth v) = NodeEvent.birth v
node_event (DecodedNodeEvent.death v) = NodeEvent.death v
node_event (DecodedNodeEvent.data_event v) = NodeEvent.data_event v

unfoldable pub device_event : DecodedDeviceEvent → DeviceEvent
device_event (DecodedDeviceEvent.birth v) = DeviceEvent.birth v
device_event (DecodedDeviceEvent.death v) = DeviceEvent.death v
device_event (DecodedDeviceEvent.data_event v) = DeviceEvent.data_event v

-- The kinds that an application has no event for.
abbrev pub is_unsupported : MessageKind → Bool
is_unsupported MessageKind.cmd = true
is_unsupported (MessageKind.other _) = true
is_unsupported MessageKind.birth = false
is_unsupported MessageKind.death = false
is_unsupported MessageKind.data_kind = false

module _ (decode_bytes : List ℕ → Result Text Payload) where
  node_from_kind : MessageKind → Message → Result PayloadError (Option DecodedNodeEvent)
  node_from_kind MessageKind.birth m = do
    p ← map_err decode_payload (decode decode_bytes m.payload)
    e ← nbirth_from_payload p
    ok (some (DecodedNodeEvent.birth e))
  node_from_kind MessageKind.death m = do
    p ← map_err decode_payload (decode decode_bytes m.payload)
    e ← ndeath_from_payload p
    ok (some (DecodedNodeEvent.death e))
  node_from_kind MessageKind.data_kind m = do
    p ← map_err decode_payload (decode decode_bytes m.payload)
    e ← ndata_from_payload p
    ok (some (DecodedNodeEvent.data_event e))
  node_from_kind MessageKind.cmd m = ok none
  node_from_kind (MessageKind.other _) m = ok none

  -- `NodeEvent::from_message`
  unfoldable pub node_from_message : Message → Result PayloadError (Option DecodedNodeEvent)
  unfolding node_from_kind
  node_from_message m = node_from_kind m.kind m

  device_from_kind : MessageKind → Message → Result PayloadError (Option DecodedDeviceEvent)
  device_from_kind MessageKind.birth m = do
    p ← map_err decode_payload (decode decode_bytes m.payload)
    e ← dbirth_from_payload p
    ok (some (DecodedDeviceEvent.birth e))
  device_from_kind MessageKind.death m = do
    p ← map_err decode_payload (decode decode_bytes m.payload)
    e ← ddeath_from_payload p
    ok (some (DecodedDeviceEvent.death e))
  device_from_kind MessageKind.data_kind m = do
    p ← map_err decode_payload (decode decode_bytes m.payload)
    e ← ddata_from_payload p
    ok (some (DecodedDeviceEvent.data_event e))
  device_from_kind MessageKind.cmd m = ok none
  device_from_kind (MessageKind.other _) m = ok none

  -- `DeviceEvent::from_message`
  unfoldable pub device_from_message : Message → Result PayloadError (Option DecodedDeviceEvent)
  unfolding device_from_kind
  device_from_message m = device_from_kind m.kind m

  abbrev node_outcome :
      NodeIdentifier
      → Result PayloadError (Option DecodedNodeEvent)
      → Result MessageTryFromError AppNodeEvent
  node_outcome i (ok (some e)) = ok (record { id = i; event = node_event e })
  node_outcome i (ok none) = err unsupported_verb
  node_outcome i (err e) = err (payload_error (record { node_id = i; device = none; error = e }))

  -- `TryFrom<NodeMessage> for AppNodeEvent`
  unfoldable pub app_node_event : NodeMessage → Result MessageTryFromError AppNodeEvent
  app_node_event m =
      let i : NodeIdentifier = record { group = m.group_id; node = m.node_id } in
      if is_encoded m.message.payload
      then (if is_unsupported m.message.kind
          then err unsupported_verb
          else ok (record { id = i; event = NodeEvent.raw m.message }))
      else node_outcome i (node_from_message m.message)

  abbrev device_outcome :
      NodeIdentifier
      → Text
      → Result PayloadError (Option DecodedDeviceEvent)
      → Result MessageTryFromError AppDeviceEvent
  device_outcome i n (ok (some e)) = ok (record { id = i; name = n; event = device_event e })
  device_outcome i n (ok none) = err unsupported_verb
  device_outcome i n (err e) =
      err (payload_error (record { node_id = i; device = some n; error = e }))

  -- `TryFrom<DeviceMessage> for AppDeviceEvent`
  unfoldable pub app_device_event : DeviceMessage → Result MessageTryFromError AppDeviceEvent
  app_device_event m =
      let i : NodeIdentifier = record { group = m.group_id; node = m.node_id } in
      if is_encoded m.message.payload
      then (if is_unsupported m.message.kind
          then err unsupported_verb
          else ok (record { id = i; name = m.device_id; event = DeviceEvent.raw m.message }))
      else device_outcome i m.device_id (device_from_message m.message)

-- ===== src/App/Messages/Deferred.antt =====
-- A payload that is decoded by the node's task, against one that the client decoded before.
use srad.Prelude.{ℕ, ◌≡◌, refl, ap, ◌∙◌, some, List, Result, ok}
use srad.Types.Text.{Text}
use srad.Types.Payload.{Payload}
use srad.Types.Message.{Message, MessageKind, encoded, decoded, decode}
use srad.App.Events.{
  DecodedNodeEvent, DecodedDeviceEvent, node_event, device_event, node_from_message,
  device_from_message,
}
use srad.App.Device.{MetricStore}
use srad.App.Node.{Node, Clock, NodeInput}
use srad.App.Application.{device_message}
use srad.App.Application.Delivery.{node_message}
use srad.App.Messages.{
  handle_message, handle_raw_node_message, handle_raw_device_message, on_node_event,
  on_device_event,
}

abbrev pub deferred : MessageKind → List ℕ → Message
deferred k bytes = record { payload = encoded bytes; kind = k }

abbrev pub eager : MessageKind → Payload → Message
eager k p = record { payload = decoded p; kind = k }

module _ (M : MetricStore) (decode_bytes : List ℕ → Result Text Payload) where
  open M use {Store}

  same_node_event :
      (k : MessageKind) (bytes : List ℕ) (p : Payload)
      → decode_bytes bytes ≡ ok p
      → node_from_message decode_bytes (deferred k bytes)
        ≡ node_from_message decode_bytes (eager k p)
  unfolding node_from_message decode
  same_node_event MessageKind.birth bytes p e = rw e refl
  same_node_event MessageKind.death bytes p e = rw e refl
  same_node_event MessageKind.data_kind bytes p e = rw e refl
  same_node_event MessageKind.cmd bytes p e = refl
  same_node_event (MessageKind.other t) bytes p e = refl

  same_device_event :
      (k : MessageKind) (bytes : List ℕ) (p : Payload)
      → decode_bytes bytes ≡ ok p
      → device_from_message decode_bytes (deferred k bytes)
        ≡ device_from_message decode_bytes (eager k p)
  unfolding device_from_message decode
  same_device_event MessageKind.birth bytes p e = rw e refl
  same_device_event MessageKind.death bytes p e = rw e refl
  same_device_event MessageKind.data_kind bytes p e = rw e refl
  same_device_event MessageKind.cmd bytes p e = refl
  same_device_event (MessageKind.other t) bytes p e = refl

  node_outcome :
      (clock : Clock) (v : DecodedNodeEvent) (n : Node Store)
      → on_node_event M decode_bytes clock (ok (some v)) n
        ≡ handle_message M decode_bytes clock (node_message clock.received (node_event v)) n
  unfolding handle_message node_event
  node_outcome clock (DecodedNodeEvent.birth b) n = refl
  node_outcome clock (DecodedNodeEvent.death d) n = refl
  node_outcome clock (DecodedNodeEvent.data_event d) n = refl

  device_outcome :
      (clock : Clock) (name : Text) (v : DecodedDeviceEvent) (n : Node Store)
      → on_device_event M decode_bytes clock name (ok (some v)) n
        ≡ handle_message M decode_bytes clock (device_message name (device_event v)) n
  unfolding handle_message device_event
  device_outcome clock name (DecodedDeviceEvent.birth b) n = refl
  device_outcome clock name (DecodedDeviceEvent.death d) n = refl
  device_outcome clock name (DecodedDeviceEvent.data_event d) n = refl

  -- A node's message whose payload was left encoded, and can be decoded and read, is handled by
  -- the node's task just as the message that the application sends to the task when the client
  -- decoded the payload, for a death with the time of the task.
  pub handle_message-deferred :
      (clock : Clock) (k : MessageKind) (bytes : List ℕ) (p : Payload) (v : DecodedNodeEvent)
      (n : Node Store)
      → decode_bytes bytes ≡ ok p
      → node_from_message decode_bytes (eager k p) ≡ ok (some v)
      → handle_message M decode_bytes clock (NodeInput.raw (deferred k bytes)) n
        ≡ handle_message M decode_bytes clock (node_message clock.received (node_event v)) n
  unfolding handle_message handle_raw_node_message
  handle_message-deferred clock k bytes p v n e f =
      ap (λ r. on_node_event M decode_bytes clock r n) (same_node_event k bytes p e ∙ f)
      ∙ node_outcome clock v n

  -- A device's message whose payload was left encoded, and can be decoded and read, is handled by
  -- the node's task just as the message that the application sends to the task when the client
  -- decoded the payload.
  pub handle_message-deferred_device :
      (clock : Clock) (name : Text) (k : MessageKind) (bytes : List ℕ) (p : Payload)
      (v : DecodedDeviceEvent) (n : Node Store)
      → decode_bytes bytes ≡ ok p
      → device_from_message decode_bytes (eager k p) ≡ ok (some v)
      → handle_message M decode_bytes clock (NodeInput.raw_device name (deferred k bytes)) n
        ≡ handle_message M decode_bytes clock (device_message name (device_event v)) n
  unfolding handle_message handle_raw_device_message
  handle_message-deferred_device clock name k bytes p v n e f =
      ap (λ r. on_device_event M decode_bytes clock name r n) (same_device_event k bytes p e ∙ f)
      ∙ device_outcome clock name v n

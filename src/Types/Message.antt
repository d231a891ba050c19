-- ===== src/Types/Message.antt =====
-- srad-client/src/types.rs: messages and events of an MQTT client.
use srad.Prelude.{ℕ, Bool, true, false, List, Result, ok, map_err}
use srad.Types.Text.{Text}
use srad.Types.Payload.{Payload}
use srad.Types.Topic
use srad.Types.Topic.{QoS, node_topic, state_host_topic}

-- The errors of other libraries are kept as their texts.
pub data MessageError : Type 0 where
  decode_payload_error : Text → MessageError
  invalid_sparkplug_topic : MessageError
  topic_utf8_error : MessageError
  state_payload_json_decode_error : Text → MessageError

pub data MessageKind : Type 0 where
  birth : MessageKind
  death : MessageKind
  cmd : MessageKind
  data_kind : MessageKind
  other : Text → MessageKind

pub data MessagePayload : Type 0 where
  encoded : List ℕ → MessagePayload
  decoded : Payload → MessagePayload

pub record Message : Type 0 where
  pub payload : MessagePayload
  pub kind : MessageKind

unfoldable pub is_encoded : MessagePayload → Bool
is_encoded (encoded bytes) = true
is_encoded (decoded p) = false

pub data StatePayload : Type 0 where
  online : ℕ → StatePayload
  offline : ℕ → StatePayload

pub record NodeMessage : Type 0 where
  pub group_id : Text
  pub node_id : Text
  pub message : Message

pub record DeviceMessage : Type 0 where
  pub group_id : Text
  pub node_id : Text
  pub device_id : Text
  pub message : Message

pub data Event : Type 0 where
  offline : Event
  online : Event
  node : NodeMessage → Event
  device : DeviceMessage → Event
  state : Text → StatePayload → Event
  invalid_publish : MessageError → List ℕ → List ℕ → Event

pub record LastWill : Type 0 where
  pub topic : Text
  pub retain : Bool
  pub qos : QoS
  pub payload : List ℕ

-- Encoding a `Payload` is the protobuf library's, and a `StatePayload` the JSON library's.
module _ (encode_payload : Payload → List ℕ) where
  unfoldable pub new_node : Text → Text → Payload → LastWill
  new_node group node_id payload = record {
    topic = node_topic group Topic.ndeath node_id;
    retain = false;
    qos = Topic.at_least_once;
    payload = encode_payload payload;
  }

module _ (encode_state : StatePayload → List ℕ) where
  unfoldable pub new_app : Text → ℕ → LastWill
  new_app host_id timestamp = record {
    topic = state_host_topic host_id;
    retain = true;
    qos = Topic.at_least_once;
    payload = encode_state (StatePayload.offline timestamp);
  }

-- `Payload::decode` is the protobuf library's.
module _ (decode_payload : List ℕ → Result Text Payload) where
  unfoldable pub decode : MessagePayload → Result MessageError Payload
  decode (encoded bytes) = map_err decode_payload_error (decode_payload bytes)
  decode (decoded p) = ok p

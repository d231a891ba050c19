-- ===== src/Eon/State.antt =====
-- `EoNState` of srad-eon/src/node.rs, which the node, its devices and their handles share, with what
-- they ask of the MQTT client.
use srad.Prelude.{
  ℕ, ◌+◌, ◌%◌, Bool, true, false, Option, none, some, List, [], ◌∷◌, not, ◌||◌, if◌then◌else◌, ltb,
  Result, ok, err, is_some,
}
use srad.Types.Text
use srad.Types.Text.{Text, bdseq, text}
use srad.Types.Payload
use srad.Types.Payload.{Payload, Value, Metric}
use srad.Types.Topic.{
  NodeTopic, DeviceTopic, Topic, TopicFilter, node_topic, device_topic, state_host_topic,
  state_sub_topic, ndeath, nbirth, ncmd, dcmd, at_least_once,
}
use srad.Types.Message.{LastWill, new_node}
use srad.Eon.Birth.{Registration}
use srad.Eon.Templates.{RegistryChange}

pub data StateError : Type 0 where
  offline : StateError
  unbirthed : StateError

pub record EonStateInner : Type 0 where
  pub seq : ℕ
  pub online : Bool
  pub birthed : Bool
  pub primary_host_online : Bool
  pub last_primary_host_timestamp : Option ℕ

pub record EonState : Type 0 where
  pub running : Bool
  pub bdseq : ℕ
  pub inner : EonStateInner
  pub group_id : Text
  pub edge_node_id : Text
  pub primary_host_id : Option Text

unfoldable pub get_next_seq : EonState → Result StateError (ℕ × EonState)
get_next_seq s =
    if not s.inner.online
    then err offline
    else if not s.inner.birthed
    then err unbirthed
    else let seq = (s.inner.seq + 1) % 256 in
      ok (seq, record s { inner = record s.inner { seq = seq } })

-- The swap; the value before it is read beforehand.
unfoldable pub online_swap : Bool → EonState → EonState
online_swap online s = record s { inner = record s.inner { online = online } }

unfoldable pub ready_to_birth : EonState → Bool
ready_to_birth s = not (is_some s.primary_host_id) || s.inner.primary_host_online

unfoldable pub set_primary_host_online : Bool → EonState → EonState
set_primary_host_online online s = record s {
  inner = record s.inner { primary_host_online = online };
}

unfoldable pub reset_primary_host : EonState → EonState
reset_primary_host s = record s { inner = record s.inner { primary_host_online = false } }

abbrev pub is_older : ℕ → Option ℕ → Bool
is_older timestamp none = false
is_older timestamp (some last) = ltb timestamp last

unfoldable pub update_primary_host_timestamp : ℕ → EonState → Bool × EonState
update_primary_host_timestamp timestamp s =
    if is_older timestamp s.inner.last_primary_host_timestamp then (false, s) else (
      true,
      record s { inner = record s.inner { last_primary_host_timestamp = some timestamp } },
    )

unfoldable pub set_dead : EonState → EonState
set_dead s = record s { inner = record s.inner { birthed = false } }

unfoldable pub start_birth : EonState → EonState
start_birth s = record s { inner = record s.inner { birthed = false; seq = 0 } }

unfoldable pub birth_completed : EonState → EonState
birth_completed s = record s { inner = record s.inner { birthed = true } }

unfoldable pub birth_topic : EonState → NodeTopic
birth_topic s = record {
  topic = node_topic s.group_id nbirth s.edge_node_id;
  message_type = nbirth;
}

unfoldable pub death_topic : EonState → NodeTopic
death_topic s = record {
  topic = node_topic s.group_id ndeath s.edge_node_id;
  message_type = ndeath;
}

-- An `i64` that is not negative is its own 64-bit pattern.
unfoldable pub generate_death_payload : EonState → Payload
unfolding Payload.new Payload.set_name Payload.set_value
generate_death_payload s = record {
  timestamp = none;
  metrics =
      Payload.set_value (Value.long_value s.bdseq) (Payload.set_name Text.bdseq Payload.new) ∷ [];
  seq = none;
  uuid = none;
  body = none;
}

unfoldable pub create_last_will : (Payload → List ℕ) → EonState → LastWill
unfolding generate_death_payload new_node
create_last_will encode s = new_node encode s.group_id s.edge_node_id (generate_death_payload s)

abbrev pub state_topic : Option Text → Text
state_topic none = state_sub_topic
state_topic (some host_id) = state_host_topic host_id

unfoldable pub sub_topics : EonState → List TopicFilter
sub_topics s =
    record {
      topic =
          Topic.for_node
            (record { topic = node_topic s.group_id ncmd s.edge_node_id; message_type = ncmd });
      qos = at_least_once;
    }
    ∷ record {
      topic = Topic.for_device (record {
        topic = device_topic s.group_id dcmd s.edge_node_id (text "+");
        message_type = dcmd;
      });
      qos = at_least_once;
    }
    ∷ record {
      topic = Topic.state (record { topic = state_topic s.primary_host_id });
      qos = at_least_once;
    }
    ∷ []

-- What is asked of the client and of its event loop.
pub data Call : Type 0 where
  subscribe_many : List TopicFilter → Call
  publish_node_message : NodeTopic → Payload → Call
  try_publish_node_message : NodeTopic → Payload → Call
  publish_device_message : DeviceTopic → Payload → Call
  try_publish_device_message : DeviceTopic → Payload → Call
  disconnect : Call
  disconnect_with_will : Call
  set_last_will : LastWill → Call

-- The shared state, and the calls so far, the latest first.
pub record Core : Type 0 where
  pub state : EonState
  pub calls : List Call

-- What the edge node meets: the hash of names, whether the latest of some calls succeeds, the
-- clock's reading after some calls, what the metric managers register for a birth then, and the
-- protobuf library.
pub record World : Type 0 where
  pub hash : Text → ℕ
  pub answer : List Call → Bool
  pub timestamp : List Call → ℕ
  pub node_metrics : List Call → List Registration
  pub device_metrics : Text → List Call → List Registration
  pub update_registry : List Call → List RegistryChange
  pub decode_payload : List ℕ → Result Text Payload
  pub encode_payload : Payload → List ℕ

abbrev pub asked : Call → Core → Core
asked c s = record s { calls = c ∷ s.calls }

abbrev pub with_state : (EonState → EonState) → Core → Core
with_state f s = record s { state = f s.state }

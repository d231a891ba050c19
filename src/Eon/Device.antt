-- ===== src/Eon/Device.antt =====
-- `Device` and `DeviceHandle` of srad-eon/src/device.rs: one device's task and what its user does.
-- A method takes the device and what it shares with its node, and returns both changed.
pub mod Silent
use srad.Prelude.{
  ℕ, Bool, true, false, Option, none, some, List, [], ◌∷◌, not, ◌&&◌, if◌then◌else◌, Result, ok,
  err, ◌>>=◌, map_err,
}
use srad.Types.Text.{Text}
use srad.Types.Payload.{Payload, Metric}
use srad.Types.Topic.{DeviceTopic, DeviceMessage, device_topic, dbirth, ddeath, ddata}
use srad.Eon.Birth.{BirthInitializer, device, initialise_birth}
use srad.Eon.Birth
use srad.Eon.Templates.{TemplateRegistry}
use srad.Eon.State.{
  StateError, unbirthed, EonState, get_next_seq, Core, World, asked, Call, publish_device_message,
  try_publish_device_message,
}

pub data BirthType : Type 0 where
  birth : BirthType
  rebirth : BirthType

abbrev pub is_birth : BirthType → Bool
is_birth birth = true
is_birth rebirth = false

pub data NodeStateMessage : Type 0 where
  born : BirthType → TemplateRegistry → NodeStateMessage
  dead : NodeStateMessage
  removed : NodeStateMessage

pub data DeviceHandleRequest : Type 0 where
  enable : DeviceHandleRequest
  disable : DeviceHandleRequest
  ask_rebirth : DeviceHandleRequest

-- `DeviceState` and `Device`. `inbox` is the channel of the node's messages, and `running` whether
-- the device's task has not ended.
pub record Device : Type 0 where
  pub birthed : Bool
  pub id : ℕ
  pub name : Text
  pub template_registry : TemplateRegistry
  pub enabled : Bool
  pub inbox : List NodeStateMessage
  pub running : Bool

-- `name` is the name of the device.
unfoldable pub topic_of : DeviceMessage → Text → EonState → DeviceTopic
topic_of kind name s = record {
  topic = device_topic s.group_id kind s.edge_node_id name;
  message_type = kind;
}

pub data PublishError : Type 0 where
  no_metrics : PublishError
  state_error : StateError → PublishError
  client_error : PublishError

-- The methods of the client that wait, and those that try.
abbrev pub device_call : Bool → DeviceTopic → Payload → Call
device_call true = try_publish_device_message
device_call false = publish_device_message

module _ (W : World) where
  unfoldable pub birth_payload : ℕ → Device → Core → Payload
  unfolding Birth.new initialise_birth
  birth_payload seq d s =
      let b =
        initialise_birth W.hash (W.device_metrics d.name s.calls)
          (Birth.new (device d.id) d.template_registry) in
      record {
        seq = some seq;
        timestamp = some (W.timestamp s.calls);
        metrics = b.birth_metrics;
        uuid = none;
        body = none;
      }

  unfoldable pub death_payload : ℕ → Core → Payload
  death_payload seq s = record {
    seq = some seq;
    timestamp = some (W.timestamp s.calls);
    metrics = [];
    uuid = none;
    body = none;
  }

  unfoldable pub publish_birth : Device → Result StateError (ℕ × EonState) → Core → Device × Core
  unfolding birth_payload topic_of
  publish_birth d (err e) s = (d, s)
  publish_birth d (ok (seq, state)) s =
      let s' =
        asked (publish_device_message (topic_of dbirth d.name state) (birth_payload seq d s))
          (record s { state = state }) in
      (record d { birthed = W.answer s'.calls }, s')

  unfoldable pub device_birth : BirthType → Device × Core → Device × Core
  unfolding get_next_seq publish_birth
  device_birth ty (d, s) =
      if not d.enabled
      then (d, s)
      else if is_birth ty && d.birthed
      then (d, s)
      else publish_birth d (get_next_seq s.state) s

  unfoldable pub publish_death : Device → Result StateError (ℕ × EonState) → Core → Device × Core
  unfolding death_payload topic_of
  publish_death d (err e) s = (d, s)
  publish_death d (ok (seq, state)) s = (
    d,
    asked (publish_device_message (topic_of ddeath d.name state) (death_payload seq s))
        (record s { state = state }),
  )

  unfoldable pub device_death : Bool → Device × Core → Device × Core
  unfolding get_next_seq publish_death
  device_death publish (d, s) =
      let d' = record d { birthed = false } in
      if not d.birthed
      then (d, s)
      else if publish
      then publish_death d' (get_next_seq s.state) s
      else (d', s)

  -- The arms of `run` for the node's messages, and for the requests of the device's handle.
  unfoldable pub on_state_message : NodeStateMessage → Device × Core → Device × Core
  unfolding device_birth device_death
  on_state_message (born ty registry) (d, s) =
      device_birth ty (record d { template_registry = registry }, s)
  on_state_message dead (d, s) = device_death false (d, s)
  on_state_message removed (d, s) =
      let r = device_death true (d, s) in (record (r.0) { running = false }, r.1)

  unfoldable pub on_request : DeviceHandleRequest → Device × Core → Device × Core
  unfolding device_birth device_death
  on_request enable (d, s) = device_birth birth (record d { enabled = true }, s)
  on_request disable (d, s) = device_death true (record d { enabled = false }, s)
  on_request ask_rebirth (d, s) = device_birth rebirth (d, s)

  unfoldable pub arm :
      List NodeStateMessage → Option DeviceHandleRequest → Device × Core → Device × Core
  unfolding on_state_message on_request
  arm (m ∷ ms) request (d, s) = on_state_message m (record d { inbox = ms }, s)
  arm [] (some r) (d, s) = on_request r (d, s)
  arm [] none (d, s) = (d, s)

  -- A turn of `run`: the node's messages come first.
  unfoldable pub device_turn : Option DeviceHandleRequest → Device × Core → Device × Core
  unfolding arm
  device_turn request (d, s) = if not d.running then (d, s) else arm d.inbox request (d, s)

  unfoldable pub check_publish_state_and_get_seq :
      Device → EonState → Result PublishError (ℕ × EonState)
  unfolding get_next_seq
  check_publish_state_and_get_seq d s =
      if not d.birthed then err (state_error unbirthed) else map_err state_error (get_next_seq s)

  abbrev pub metrics_payload : ℕ → List Metric → Core → Payload
  metrics_payload seq metrics s = record {
    timestamp = some (W.timestamp s.calls);
    metrics = metrics;
    seq = some seq;
    uuid = none;
    body = none;
  }

  abbrev pub sent :
      (Payload → Call)
      → List Metric
      → Result PublishError (ℕ × EonState)
      → Core
      → Result PublishError (Unit {0}) × Core
  sent c metrics (err e) s = (err e, s)
  sent c metrics (ok (seq, state)) s =
      let s' = asked (c (metrics_payload seq metrics s)) (record s { state = state }) in
      (if W.answer s'.calls then ok tt else err client_error, s')

  -- `DeviceHandle::try_publish_metrics_unsorted` and `publish_metrics_unsorted`, with the metrics
  -- in their protobuf form.
  unfoldable pub device_publish :
      Bool → List Metric → Device → Core → Result PublishError (Unit {0}) × Core
  unfolding check_publish_state_and_get_seq topic_of
  device_publish try [] d s = (err no_metrics, s)
  device_publish try (m ∷ ms) d s =
      sent (device_call try (topic_of ddata d.name s.state)) (m ∷ ms)
        (check_publish_state_and_get_seq d s.state) s

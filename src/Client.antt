-- ===== src/Client.antt =====
-- srad-client/src/utils.rs: an MQTT publish turned into an event.
-- `is_utf8` is the test of `String::from_utf8`, `decode_payload` the protobuf library's decoder, and
-- `decode_certificate` the JSON library's decoder of a STATE payload.
pub mod RoundTrip
mod Tests
use srad.Prelude.{
  split, ℕ, Bool, true, false, List, [], ◌∷◌, ◌==◌, if◌then◌else◌, Result, ok, err, ◌>>=◌, ◌>>◌,
  list_eq, nat_eq,
}
use srad.Types.Text
use srad.Types.Text.{Text, text}
use srad.Types.Payload.{Payload}
use srad.Types.Topic.{slash}
use srad.Types.Message.{
  MessageError, decode_payload_error, invalid_sparkplug_topic, topic_utf8_error,
  state_payload_json_decode_error, MessageKind, MessagePayload, Message, StatePayload, Event,
}

-- srad-types/src/payload.rs
pub record StateBirthDeathCertificate : Type 0 where
  pub online : Bool
  pub timestamp : ℕ

pub data MessageProducer : Type 0 where
  device_producer : MessageProducer
  node_producer : MessageProducer

-- `iter.next()`, where nothing is left an invalid topic.
abbrev pub next : List Text → Result MessageError (Text × List Text)
next [] = err invalid_sparkplug_topic
next (p ∷ ps) = ok (p, ps)

abbrev pub no_more : List Text → Result MessageError (Unit {0})
no_more [] = ok tt
no_more (_ ∷ _) = err invalid_sparkplug_topic

producer : ℕ → Result MessageError MessageProducer
producer c =
    if c == 78
    then ok node_producer
    else if c == 68
    then ok device_producer
    else err invalid_sparkplug_topic

module _ (is_utf8 : List ℕ → Bool) (decode_bytes : List ℕ → Result Text Payload)
    (decode_certificate : List ℕ → Result Text StateBirthDeathCertificate) where
  abbrev from_utf8 : List ℕ → Result MessageError Text
  from_utf8 bytes = if is_utf8 bytes then ok bytes else err topic_utf8_error

  kind : Text → Result MessageError MessageKind
  kind t =
      if list_eq.beq t (text "BIRTH")
      then ok MessageKind.birth
      else if list_eq.beq t (text "DEATH")
      then ok MessageKind.death
      else if list_eq.beq t (text "DATA")
      then ok MessageKind.data_kind
      else if list_eq.beq t (text "CMD")
      then ok MessageKind.cmd
      else from_utf8 t >>= λ other. ok (MessageKind.other other)

  pub parse_message_part : Text → Result MessageError (MessageProducer × MessageKind)
  unfolding producer kind
  parse_message_part [] = err invalid_sparkplug_topic
  parse_message_part (_ ∷ []) = err invalid_sparkplug_topic
  parse_message_part (c ∷ d ∷ rest) = do p ← producer c; k ← kind (d ∷ rest); ok (p, k)

  abbrev decoded : Result Text Payload → Result MessageError MessagePayload
  decoded (ok p) = ok (MessagePayload.decoded p)
  decoded (err e) = err (decode_payload_error e)

  pub build_message : List ℕ → MessageKind → Bool → Result MessageError Message
  build_message payload k decode = do
    p ← (if decode then decoded (decode_bytes payload) else ok (MessagePayload.encoded payload))
    ok (record { payload = p; kind = k })

  abbrev state_payload : StateBirthDeathCertificate → StatePayload
  state_payload c =
      if c.online then StatePayload.online c.timestamp else StatePayload.offline c.timestamp

  abbrev certified : Text → Result Text StateBirthDeathCertificate → Result MessageError Event
  certified host (ok c) = ok (Event.state host (state_payload c))
  certified host (err e) = err (state_payload_json_decode_error e)

  state_event : List Text → List ℕ → Result MessageError Event
  state_event parts payload = do
    (host, _) ← next parts
    host_id ← from_utf8 host
    certified host_id (decode_certificate payload)

  -- The parts after the node's name.
  producer_event :
      MessageProducer
      → Text
      → Text
      → MessageKind
      → List Text
      → List ℕ
      → Bool
      → Result MessageError Event
  producer_event node_producer group_id node_id k parts payload decode = do
    no_more parts
    m ← build_message payload k decode
    ok (Event.node (record { group_id = group_id; node_id = node_id; message = m }))
  producer_event device_producer group_id node_id k parts payload decode = do
    (device, rest) ← next parts
    device_id ← from_utf8 device
    no_more rest
    m ← build_message payload k decode
    ok (
        Event.device
          (record { group_id = group_id; node_id = node_id; device_id = device_id; message = m }))

  group_event : Text → List Text → List ℕ → Bool → Result MessageError Event
  group_event group parts payload decode = do
    group_id ← from_utf8 group
    (part, rest) ← next parts
    (p, k) ← parse_message_part part
    (node, rest') ← next rest
    node_id ← from_utf8 node
    producer_event p group_id node_id k rest' payload decode

  -- The event, or the reason why the publish is invalid.
  parse : List ℕ → List ℕ → Bool → Result MessageError Event
  parse topic payload decode = do
    (_, rest) ← next (split slash topic)
    (group, rest') ← next rest
    (if list_eq.beq Text.state group
        then state_event rest' payload
        else group_event group rest' payload decode)

  abbrev or_invalid : List ℕ → List ℕ → Result MessageError Event → Event
  or_invalid topic payload (ok e) = e
  or_invalid topic payload (err reason) = Event.invalid_publish reason topic payload

  pub topic_and_payload_to_event_inner : List ℕ → List ℕ → Bool → Event
  unfolding parse
  topic_and_payload_to_event_inner topic payload decode =
      or_invalid topic payload (parse topic payload decode)

  abbrev pub topic_and_payload_to_event : List ℕ → List ℕ → Event
  topic_and_payload_to_event topic payload = topic_and_payload_to_event_inner topic payload true

  abbrev pub topic_and_payload_to_event_deferred : List ℕ → List ℕ → Event
  topic_and_payload_to_event_deferred topic payload =
      topic_and_payload_to_event_inner topic payload false

-- ===== src/Client/RoundTrip.antt =====
-- The topics that nodes and devices publish on are read back.
use srad.Prelude.{
  split, ℕ, Bool, true, false, List, [], ◌∷◌, ◌++◌, ◌≡◌, refl, ap, ◌∙◌, Result, ok, arith, list_eq,
  nat_eq,
}
use srad.Types.Text
use srad.Types.Text.{Text}
use srad.Types.Payload.{Payload}
use srad.Types.Topic
use srad.Types.Topic.{
  slash, device_topic, node_topic, node_topic_raw, device_as_str, node_as_str, any_reserved,
  validate_name,
}
use srad.Types.Message.{MessageKind, Message, Event}
use srad.Client.{
  StateBirthDeathCertificate, parse_message_part, build_message, group_event, producer_event, parse,
  topic_and_payload_to_event_inner, device_producer, node_producer,
}

pub split_part :
    (a b : Text) → any_reserved a ≡ false → split slash (a ++ slash ∷ b) ≡ a ∷ split slash b
split_part [] b h = refl
split_part (c ∷ a) b h = ground (arith, split_part a b)

pub split_last : (a : Text) → any_reserved a ≡ false → split slash a ≡ a ∷ []
split_last [] h = refl
split_last (c ∷ a) h = ground (arith, split_last a)

pub valid-reserved : (t : Text) → validate_name t ≡ ok tt → any_reserved t ≡ false
unfolding validate_name
valid-reserved [] h = refl
valid-reserved (c ∷ t) h = ground arith

abbrev pub node_kind : Topic.NodeMessage → MessageKind
node_kind Topic.nbirth = MessageKind.birth
node_kind Topic.ndeath = MessageKind.death
node_kind Topic.ndata = MessageKind.data_kind
node_kind Topic.ncmd = MessageKind.cmd

abbrev pub device_kind : Topic.DeviceMessage → MessageKind
device_kind Topic.dbirth = MessageKind.birth
device_kind Topic.ddeath = MessageKind.death
device_kind Topic.ddata = MessageKind.data_kind
device_kind Topic.dcmd = MessageKind.cmd

device-reserved : (ty : Topic.DeviceMessage) → any_reserved (device_as_str ty) ≡ false
device-reserved Topic.dbirth = refl
device-reserved Topic.ddeath = refl
device-reserved Topic.ddata = refl
device-reserved Topic.dcmd = refl

node-reserved : (ty : Topic.NodeMessage) → any_reserved (node_as_str ty) ≡ false
node-reserved Topic.nbirth = refl
node-reserved Topic.ndeath = refl
node-reserved Topic.ndata = refl
node-reserved Topic.ncmd = refl

pub split-device_topic :
    (g n d : Text) (ty : Topic.DeviceMessage)
    → any_reserved g ≡ false
    → any_reserved n ≡ false
    → any_reserved d ≡ false
    → split slash (device_topic g ty n d) ≡ Text.spbv01 ∷ g ∷ device_as_str ty ∷ n ∷ d ∷ []
unfolding device_topic
split-device_topic g n d ty hg hn hd =
    let end : Text = n ++ slash ∷ d in
    let rest : Text = device_as_str ty ++ slash ∷ end in
    split_part Text.spbv01 (g ++ slash ∷ rest) refl
    ∙ ap (◌∷◌ Text.spbv01) (
        split_part g rest hg
        ∙ ap (◌∷◌ g) (
            split_part (device_as_str ty) end (device-reserved ty)
            ∙ ap (◌∷◌ (device_as_str ty)) (split_part n d hn ∙ ap (◌∷◌ n) (split_last d hd))))

pub split-node_topic :
    (g n : Text) (ty : Topic.NodeMessage)
    → any_reserved g ≡ false
    → any_reserved n ≡ false
    → split slash (node_topic g ty n) ≡ Text.spbv01 ∷ g ∷ node_as_str ty ∷ n ∷ []
unfolding node_topic node_topic_raw
split-node_topic g n ty hg hn =
    let rest : Text = node_as_str ty ++ slash ∷ n in
    split_part Text.spbv01 (g ++ slash ∷ rest) refl
    ∙ ap (◌∷◌ Text.spbv01) (
        split_part g rest hg
        ∙ ap (◌∷◌ g) (
            split_part (node_as_str ty) n (node-reserved ty)
            ∙ ap (◌∷◌ (node_as_str ty)) (split_last n hn)))

module _ (is_utf8 : List ℕ → Bool) (decode_bytes : List ℕ → Result Text Payload)
    (decode_certificate : List ℕ → Result Text StateBirthDeathCertificate) where
  device_part :
      (ty : Topic.DeviceMessage)
      → parse_message_part is_utf8 decode_bytes decode_certificate (device_as_str ty)
        ≡ ok (device_producer, device_kind ty)
  unfolding parse_message_part
  device_part Topic.dbirth = refl
  device_part Topic.ddeath = refl
  device_part Topic.ddata = refl
  device_part Topic.dcmd = refl

  node_part :
      (ty : Topic.NodeMessage)
      → parse_message_part is_utf8 decode_bytes decode_certificate (node_as_str ty)
        ≡ ok (node_producer, node_kind ty)
  unfolding parse_message_part
  node_part Topic.nbirth = refl
  node_part Topic.ndeath = refl
  node_part Topic.ndata = refl
  node_part Topic.ncmd = refl

  -- The name of a group, a node or a device: `validate_name` takes it.
  abbrev pub IsName : Text → Type 0
  IsName t = (validate_name t ≡ ok tt) × (is_utf8 t ≡ true)

  -- A message that is published on the topic of a device, whose group, node and device have valid
  -- names and whose group is not called STATE, is read as an event of this device with the kind of
  -- the topic's message type, if its payload can be read.
  pub event-device_topic :
      (g n d : Text) (ty : Topic.DeviceMessage) (payload : List ℕ) (decode : Bool) (m : Message)
      → list_eq.beq Text.state g ≡ false
      → IsName g
      → IsName n
      → IsName d
      → build_message is_utf8 decode_bytes decode_certificate payload (device_kind ty) decode ≡ ok m
      → topic_and_payload_to_event_inner is_utf8 decode_bytes decode_certificate
          (device_topic g ty n d)
          payload
          decode
        ≡ Event.device (record { group_id = g; node_id = n; device_id = d; message = m })
  unfolding topic_and_payload_to_event_inner parse group_event producer_event
  event-device_topic g n d ty payload decode m hs hg hn hd hm =
      rw
        (
          split-device_topic g n d ty (valid-reserved g hg.0) (valid-reserved n hn.0)
              (valid-reserved d hd.0),
          hs,
          hg.1,
          device_part ty,
          hn.1,
          hd.1,
          hm,
        )
        refl

  -- A message that is published on the topic of a node, whose group and node have valid names and
  -- whose group is not called STATE, is read as an event of this node with the kind of the topic's
  -- message type, if its payload can be read.
  pub event-node_topic :
      (g n : Text) (ty : Topic.NodeMessage) (payload : List ℕ) (decode : Bool) (m : Message)
      → list_eq.beq Text.state g ≡ false
      → IsName g
      → IsName n
      → build_message is_utf8 decode_bytes decode_certificate payload (node_kind ty) decode ≡ ok m
      → topic_and_payload_to_event_inner is_utf8 decode_bytes decode_certificate
          (node_topic g ty n)
          payload
          decode
        ≡ Event.node (record { group_id = g; node_id = n; message = m })
  unfolding topic_and_payload_to_event_inner parse group_event producer_event
  event-node_topic g n ty payload decode m hs hg hn hm =
      rw
        (
          split-node_topic g n ty (valid-reserved g hg.0) (valid-reserved n hn.0),
          hs,
          hg.1,
          node_part ty,
          hn.1,
          hm,
        )
        refl

-- ===== src/Client/Tests.antt =====
-- Tests of the client's parser, and its theorems on concrete topics.
use srad.Prelude.{ℕ, ◌≡◌, refl, Bool, true, false, List, [], ◌∷◌, Result, ok, err}
use srad.Types.Text.{Text, text}
use srad.Types.Payload.{Payload}
use srad.Types.Topic
use srad.Types.Topic.{device_topic, node_topic, validate_name}
use srad.Types.Message.{MessageKind, MessagePayload, Event}
use srad.Client.{StateBirthDeathCertificate, topic_and_payload_to_event_inner, build_message}
use srad.Client.RoundTrip.{event-device_topic, event-node_topic}

-- ASCII alone.
abbrev ascii : List ℕ → Bool
ascii bytes = true

abbrev no_decoder : List ℕ → Result Text Payload
no_decoder bytes = err (text "not protobuf")

abbrev no_certificate : List ℕ → Result Text StateBirthDeathCertificate
no_certificate bytes = err (text "not JSON")

plant_test : validate_name (text "plant") ≡ ok tt
unfolding validate_name
plant_test = refl

encoded_test :
    build_message ascii no_decoder no_certificate (1 ∷ 2 ∷ []) MessageKind.data_kind false
    ≡ ok (record { payload = MessagePayload.encoded (1 ∷ 2 ∷ []); kind = MessageKind.data_kind })
unfolding build_message
encoded_test = refl

event-device_topic_example :
    topic_and_payload_to_event_inner ascii no_decoder no_certificate
      (device_topic (text "plant") Topic.ddata (text "plant") (text "plant"))
      (1 ∷ 2 ∷ [])
      false
    ≡ Event.device (record {
      group_id = text "plant";
      node_id = text "plant";
      device_id = text "plant";
      message = record {
        payload = MessagePayload.encoded (1 ∷ 2 ∷ []);
        kind = MessageKind.data_kind;
      };
    })
event-device_topic_example =
    event-device_topic ascii no_decoder no_certificate (text "plant") (text "plant") (text "plant")
      Topic.ddata (1 ∷ 2 ∷ []) false
      (record { payload = MessagePayload.encoded (1 ∷ 2 ∷ []); kind = MessageKind.data_kind }) refl
      (plant_test, refl) (plant_test, refl) (plant_test, refl) encoded_test

event-node_topic_example :
    topic_and_payload_to_event_inner ascii no_decoder no_certificate
      (node_topic (text "plant") Topic.ndata (text "plant"))
      (1 ∷ 2 ∷ [])
      false
    ≡ Event.node (record {
      group_id = text "plant";
      node_id = text "plant";
      message = record {
        payload = MessagePayload.encoded (1 ∷ 2 ∷ []);
        kind = MessageKind.data_kind;
      };
    })
event-node_topic_example =
    event-node_topic ascii no_decoder no_certificate (text "plant") (text "plant") Topic.ndata
      (1 ∷ 2 ∷ []) false
      (record { payload = MessagePayload.encoded (1 ∷ 2 ∷ []); kind = MessageKind.data_kind }) refl
      (plant_test, refl) (plant_test, refl) encoded_test

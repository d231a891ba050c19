-- ===== src/App/Tests/Routing.antt =====
-- Tests of the routing of events and messages, and of subscriptions.
use srad.Prelude.{
  list_eq, nat_eq, lookup, ℕ, ◌≡◌, refl, none, some, List, [], ◌∷◌, ◌++◌, true, false, Result, ok,
}
use srad.Types.Text.{Text, text}
use srad.Types.Payload.{Payload}
use srad.Types.Message.{decode, MessageKind}
use srad.App.Metrics.{get_metric_id_and_details_from_payload_metrics}
use srad.App.Payloads.{ndata_from_payload, ddeath_from_payload}
use srad.App.Events.{
  NodeEvent, DecodedDeviceEvent, DecodedNodeEvent, node_event, device_event, node_from_message,
  device_from_message,
}
use srad.App.Node.{Node, NodeInput, ResequenceableEvent}
use srad.App.Subscriptions.{NamespaceSubConfig, custom, topic_filters}
use srad.App.Subscriptions.Covers.{any_matches, topic_filters-includes}
use srad.Types.Topic
use srad.Types.Topic.{node_topic, device_topic, validate_name}
use srad.App.Application
use srad.App.Application.{Application, AppEvent}
use srad.App.Application.Routes.{inbox}
use srad.App.Application.Delivery.{all_sends, run-all_sends}
use srad.App.Messages.{handle_message}
use srad.App.Device.{birthed}
use srad.App.Messages.{process_in_sequence_message}
use srad.App.Messages.Isolation.{process-other_devices}
use srad.App.Messages.Deferred.{
  deferred, eager, handle_message-deferred, handle_message-deferred_device,
}
use srad.App.Tests.{counter, node_id, config, at, birth_at, data_at, living}

abbrev empty_application : Application ℕ
empty_application = record { nodes = []; config = config; node_created = none }

-- Data of a node that is not known, its birth, its data, and the end of the connection.
abbrev events : List (ℕ × AppEvent)
events =
    (1, AppEvent.node (record { id = node_id; event = NodeEvent.data_event (data_at 2 8) }))
    ∷ (2, AppEvent.node (record { id = node_id; event = NodeEvent.birth (birth_at 9) }))
    ∷ (3, AppEvent.node (record { id = node_id; event = NodeEvent.data_event (data_at 1 10) }))
    ∷ (4, AppEvent.offline)
    ∷ []

run-all_sends_example :
    inbox node_id (Application.run events empty_application)
    ≡ inbox node_id empty_application ++ all_sends node_id false false events
unfolding lookup
run-all_sends_example = run-all_sends node_id events empty_application

sent_test :
    all_sends node_id false false events
    ≡ NodeInput.nbirth (birth_at 9) ∷ NodeInput.ndata (data_at 1 10) ∷ NodeInput.offline ∷ []
sent_test = refl

plant_test : validate_name (text "plant") ≡ ok tt
unfolding validate_name
plant_test = refl

topic_filters-includes_example :
    (any_matches
        (topic_filters (custom (NamespaceSubConfig.node (text "plant") (text "plant") ∷ [])))
        (node_topic (text "plant") Topic.ndata (text "plant"))
      ≡ true)
    × (any_matches
          (topic_filters (custom (NamespaceSubConfig.node (text "plant") (text "plant") ∷ [])))
          (device_topic (text "plant") Topic.ddata (text "plant") (text "plant"))
        ≡ true)
topic_filters-includes_example =
    topic_filters-includes (custom (NamespaceSubConfig.node (text "plant") (text "plant") ∷ []))
      (text "plant") (text "plant") (text "plant") Topic.ndata Topic.ddata
      ((plant_test, plant_test), tt) plant_test plant_test plant_test

abbrev seq_payload : Payload
seq_payload = record { timestamp = some 9; metrics = []; seq = some 300; uuid = none; body = none }

abbrev one_payload : List ℕ → Result Text Payload
one_payload bytes = ok seq_payload

decoded_data_test :
    node_from_message one_payload (eager MessageKind.data_kind seq_payload)
    ≡ ok (some (DecodedNodeEvent.data_event (data_at 44 9)))
unfolding node_from_message ndata_from_payload get_metric_id_and_details_from_payload_metrics decode
decoded_data_test = refl

decoded_death_test :
    device_from_message one_payload (eager MessageKind.death seq_payload)
    ≡ ok (some (DecodedDeviceEvent.death (record { seq = 44; timestamp = 9 })))
unfolding device_from_message ddeath_from_payload decode
decoded_death_test = refl

handle_message-deferred_example :
    handle_message counter one_payload
      (at 20)
      (NodeInput.raw (deferred MessageKind.data_kind (8 ∷ 9 ∷ [])))
      living
    ≡ handle_message counter one_payload (at 20) (NodeInput.ndata (data_at 44 9)) living
unfolding node_event
handle_message-deferred_example =
    handle_message-deferred counter one_payload (at 20) MessageKind.data_kind (8 ∷ 9 ∷ [])
      seq_payload (DecodedNodeEvent.data_event (data_at 44 9)) living refl decoded_data_test

handle_message-deferred_device_example :
    handle_message counter one_payload
      (at 20)
      (NodeInput.raw_device (text "pump") (deferred MessageKind.death (8 ∷ 9 ∷ [])))
      living
    ≡ handle_message counter one_payload
        (at 20)
        (NodeInput.ddeath (text "pump") (record { seq = 44; timestamp = 9 }))
        living
unfolding device_event
handle_message-deferred_device_example =
    handle_message-deferred_device counter one_payload (at 20) (text "pump") MessageKind.death
      (8 ∷ 9 ∷ []) seq_payload (DecodedDeviceEvent.death (record { seq = 44; timestamp = 9 }))
      living refl decoded_death_test

-- A node with a birthed valve, and a pump.
abbrev two_devices : Node ℕ
two_devices = record living {
  devices =
      (text "valve", record { name = text "valve"; lifecycle_state = birthed; store = some 3 })
      ∷ (text "pump", record { name = text "pump"; lifecycle_state = birthed; store = none })
      ∷ [];
}

process-other_devices_example :
    lookup
      (text "valve")
      (process_in_sequence_message counter
        (ResequenceableEvent.ddeath (text "pump"))
        two_devices).1.devices
    ≡ lookup (text "valve") two_devices.devices
process-other_devices_example =
    process-other_devices counter (ResequenceableEvent.ddeath (text "pump")) (text "valve")
      two_devices refl

-- ===== src/App/Client.antt =====
-- `AppClient` of srad-app/src/eventloop.rs: what an application publishes.
use srad.Prelude.{ℕ, true, none, some, List, [], ◌∷◌, map}
use srad.Types.Text.{Text, node_control_rebirth}
use srad.Types.Payload.{Payload, Value}
use srad.Types.Topic.{NodeTopic, DeviceTopic, node_topic, device_topic, ncmd, dcmd}
use srad.App.Metrics.{MetricId, PublishMetric, to_metric}

pub data PublishTopic : Type 0 where
  to_node : NodeTopic → PublishTopic
  to_device : DeviceTopic → PublishTopic

unfoldable pub new_device_cmd : Text → Text → Text → PublishTopic
new_device_cmd group_id node_id device_id =
    to_device (record { topic = device_topic group_id dcmd node_id device_id; message_type = dcmd })

unfoldable pub new_node_cmd : Text → Text → PublishTopic
new_node_cmd group_id node_id =
    to_node (record { topic = node_topic group_id ncmd node_id; message_type = ncmd })

-- The first number is the clock's reading.
unfoldable pub metrics_to_payload : ℕ → List PublishMetric → Payload
metrics_to_payload now metrics = record {
  timestamp = some now;
  metrics = map to_metric metrics;
  seq = none;
  uuid = none;
  body = none;
}

-- The calls of the client that publish.
pub data PublishCall : Type 0 where
  publish_node_message : NodeTopic → Payload → PublishCall
  publish_device_message : DeviceTopic → Payload → PublishCall
  try_publish_node_message : NodeTopic → Payload → PublishCall
  try_publish_device_message : DeviceTopic → Payload → PublishCall

unfoldable pub try_publish_metrics : ℕ → PublishTopic → List PublishMetric → PublishCall
unfolding metrics_to_payload
try_publish_metrics now (to_node t) ms = try_publish_node_message t (metrics_to_payload now ms)
try_publish_metrics now (to_device t) ms = try_publish_device_message t (metrics_to_payload now ms)

unfoldable pub publish_metrics : ℕ → PublishTopic → List PublishMetric → PublishCall
unfolding metrics_to_payload
publish_metrics now (to_node t) ms = publish_node_message t (metrics_to_payload now ms)
publish_metrics now (to_device t) ms = publish_device_message t (metrics_to_payload now ms)

abbrev pub rebirth_cmd : PublishMetric
rebirth_cmd = record {
  metric_identifier = MetricId.name node_control_rebirth;
  value = Value.boolean_value true;
  timestamp = none;
  datatype = none;
}

unfoldable pub publish_node_rebirth : ℕ → Text → Text → PublishCall
unfolding publish_metrics new_node_cmd
publish_node_rebirth now group_id node_id =
    publish_metrics now (new_node_cmd group_id node_id) (rebirth_cmd ∷ [])

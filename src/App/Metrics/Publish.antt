-- ===== src/App/Metrics/Publish.antt =====
-- A metric that an application publishes is read back.
use srad.Prelude.{ℕ, ◌≡◌, refl, Option, none, some, ok, false}
use srad.Types.DataType.{DataType}
use srad.Types.Payload.{Value}
use srad.App.Metrics.{MetricId, PublishMetric, to_metric, id_and_details, details_from_metric}

abbrev pub published : MetricId → Value → ℕ → Option DataType → PublishMetric
published i v t d = record { metric_identifier = i; value = v; timestamp = some t; datatype = d }

-- A metric that is published with a timestamp, by name or by alias, with or without a datatype, is
-- read by `get_metric_id_and_details_from_payload_metrics` as the same identifier, value and
-- timestamp, neither historical nor transient, without properties and metadata.
pub id_and_details-to_metric :
    (i : MetricId) (v : Value) (t : ℕ) (d : Option DataType)
    → id_and_details (to_metric (published i v t d))
      ≡ ok (
        i,
        record {
          value = some v;
          properties = none;
          metadata = none;
          timestamp = t;
          is_historical = false;
          is_transient = false;
        },
      )
unfolding id_and_details to_metric details_from_metric
id_and_details-to_metric (MetricId.name n) v t none = refl
id_and_details-to_metric (MetricId.name n) v t (some d) = refl
id_and_details-to_metric (MetricId.alias a) v t none = refl
id_and_details-to_metric (MetricId.alias a) v t (some d) = refl

-- ===== src/App/Tests/Reading.antt =====
-- Tests of what is read from payloads and metrics.
use srad.Prelude.{All, ◌≡◌, ◌↔◌, refl, none, some, [], ◌∷◌, false, ok}
use srad.Types.Text.{text}
use srad.Types.Payload
use srad.Types.Payload.{Payload, Metric, Value}
use srad.Types.DataType
use srad.Types.DataType.{from_code}
use srad.Types.Message.{decode, Message, MessageKind, MessagePayload}
use srad.App.Metrics.{
  MetricId, MetricDetails, MetricBirthDetails, id_and_details, to_metric, birth_details,
  details_from_metric, bdseq_from_payload_metrics, get_metric_birth_details_from_birth_metrics,
}
use srad.App.Metrics.Publish.{published, id_and_details-to_metric}
use srad.App.Payloads.{NBirth, nbirth_from_payload, ddeath_from_payload}
use srad.App.Metrics.Complete.{IsComplete}
use srad.App.Payloads.Accepts.{HasBdseq, IsRead, nbirth_from_payload_iff}
use srad.App.Events.{DecodedDeviceEvent, device_from_message}
use srad.App.Tests.{no_decoder}

id_and_details-to_metric_example :
    id_and_details (to_metric (published (MetricId.alias 3) (Value.int_value 7) 5 none))
    ≡ ok (
      MetricId.alias 3,
      record {
        value = some (Value.int_value 7);
        properties = none;
        metadata = none;
        timestamp = 5;
        is_historical = false;
        is_transient = false;
      },
    )
id_and_details-to_metric_example =
    id_and_details-to_metric (MetricId.alias 3) (Value.int_value 7) 5 none

-- A sequence number beyond a `u8` is narrowed.
abbrev death_message : Message
death_message = record {
  payload =
      MessagePayload.decoded
        (record { timestamp = some 9; metrics = []; seq = some 300; uuid = none; body = none });
  kind = MessageKind.death;
}

narrowed_test :
    device_from_message no_decoder death_message
    ≡ ok (some (DecodedDeviceEvent.death (record { seq = 44; timestamp = 9 })))
unfolding device_from_message ddeath_from_payload decode
narrowed_test = refl

abbrev birth_payload : Payload
birth_payload = record {
  timestamp = some 9;
  metrics =
      Metric.valued
        (record Payload.no_fields {
          name = some (text "bdSeq");
          datatype = some 8;
          timestamp = some 9;
        })
        (Value.long_value 4)
      ∷ [];
  seq = some 0;
  uuid = none;
  body = none;
}

abbrev bdseq_details : MetricBirthDetails × MetricDetails
bdseq_details = (
  record { name = text "bdSeq"; alias = none; datatype = DataType.uint64 },
  record {
    value = some (Value.long_value 4);
    properties = none;
    metadata = none;
    timestamp = 9;
    is_historical = false;
    is_transient = false;
  },
)

abbrev read_birth : NBirth
read_birth = record { bdseq = 4; timestamp = 9; metrics_details = bdseq_details ∷ [] }

nbirth_from_payload_iff_example : IsRead birth_payload 4 9 ↔ (
    (birth_payload.seq ≡ some 0)
    × (birth_payload.timestamp ≡ some 9)
    × HasBdseq 4 birth_payload.metrics
    × All IsComplete birth_payload.metrics)
nbirth_from_payload_iff_example = nbirth_from_payload_iff birth_payload 4 9

nbirth_test : nbirth_from_payload birth_payload ≡ ok read_birth
unfolding nbirth_from_payload bdseq_from_payload_metrics get_metric_birth_details_from_birth_metrics
    birth_details details_from_metric from_code
nbirth_test = refl

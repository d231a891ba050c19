-- ===== src/App/Payloads.antt =====
-- srad-app/src/events.rs: the payloads of the six kinds of message, checked and read.
pub mod Accepts
use srad.Prelude.{ℕ, ◌%◌, List, ◌==◌, Result, ok, ◌>>=◌, ◌>>◌, ok_or, map_err, guard}
use srad.Types.Payload.{Payload}
use srad.Types.Message.{MessageError}
use srad.App.Metrics.{
  MetricId, MetricDetails, MetricBirthDetails, BdseqError, PayloadMetricError,
  bdseq_from_payload_metrics, get_metric_birth_details_from_birth_metrics,
  get_metric_id_and_details_from_payload_metrics,
}

pub data PayloadError : Type 0 where
  missing_seq : PayloadError
  invalid_seq : PayloadError
  missing_timestamp : PayloadError
  invalid_bdseq : BdseqError → PayloadError
  metric_error : PayloadMetricError → PayloadError
  decode_payload : MessageError → PayloadError

pub record NBirth : Type 0 where
  pub bdseq : ℕ
  pub timestamp : ℕ
  pub metrics_details : List (MetricBirthDetails × MetricDetails)

pub record NDeath : Type 0 where
  pub bdseq : ℕ

pub record NData : Type 0 where
  pub seq : ℕ
  pub timestamp : ℕ
  pub metrics_details : List (MetricId × MetricDetails)

pub record DBirth : Type 0 where
  pub seq : ℕ
  pub timestamp : ℕ
  pub metrics_details : List (MetricBirthDetails × MetricDetails)

pub record DDeath : Type 0 where
  pub seq : ℕ
  pub timestamp : ℕ

pub record DData : Type 0 where
  pub seq : ℕ
  pub timestamp : ℕ
  pub metrics_details : List (MetricId × MetricDetails)

unfoldable pub nbirth_from_payload : Payload → Result PayloadError NBirth
nbirth_from_payload p = do
  seq ← ok_or p.seq missing_seq
  guard (seq == 0) invalid_seq
  t ← ok_or p.timestamp missing_timestamp
  b ← map_err invalid_bdseq (bdseq_from_payload_metrics p.metrics)
  d ← map_err metric_error (get_metric_birth_details_from_birth_metrics p.metrics)
  ok (record { bdseq = b; timestamp = t; metrics_details = d })

unfoldable pub ndeath_from_payload : Payload → Result PayloadError NDeath
ndeath_from_payload p = do
  b ← map_err invalid_bdseq (bdseq_from_payload_metrics p.metrics)
  ok (record { bdseq = b })

-- `seq as u8` keeps the lowest eight bits.
unfoldable pub ndata_from_payload : Payload → Result PayloadError NData
ndata_from_payload p = do
  seq ← ok_or p.seq missing_seq
  t ← ok_or p.timestamp missing_timestamp
  d ← map_err metric_error (get_metric_id_and_details_from_payload_metrics p.metrics)
  ok (record { seq = seq % 256; timestamp = t; metrics_details = d })

unfoldable pub dbirth_from_payload : Payload → Result PayloadError DBirth
dbirth_from_payload p = do
  seq ← ok_or p.seq missing_seq
  t ← ok_or p.timestamp missing_timestamp
  d ← map_err metric_error (get_metric_birth_details_from_birth_metrics p.metrics)
  ok (record { seq = seq % 256; timestamp = t; metrics_details = d })

unfoldable pub ddeath_from_payload : Payload → Result PayloadError DDeath
ddeath_from_payload p = do
  seq ← ok_or p.seq missing_seq
  t ← ok_or p.timestamp missing_timestamp
  ok (record { seq = seq % 256; timestamp = t })

unfoldable pub ddata_from_payload : Payload → Result PayloadError DData
ddata_from_payload p = do
  seq ← ok_or p.seq missing_seq
  t ← ok_or p.timestamp missing_timestamp
  d ← map_err metric_error (get_metric_id_and_details_from_payload_metrics p.metrics)
  ok (record { seq = seq % 256; timestamp = t; metrics_details = d })

-- ===== src/App/Metrics.antt =====
-- srad-app/src/metrics.rs: what the application reads from the metrics of a payload.
pub mod Publish
pub mod Complete
use srad.Prelude.{
  ℕ, Bool, true, false, Option, none, some, List, [], ◌∷◌, ltb, if◌then◌else◌, Result, ok, err,
  ◌>>=◌, ok_or, list_eq, nat_eq,
}
use srad.Types.Text.{Text, bdseq}
use srad.Types.DataType.{DataType, from_code, code}
use srad.Types.Payload.{Metric, MetaData, Value, Payload, PropertySet, fields, value}
use srad.Types.Payload
use srad.Types.Properties.{Properties, from_proto}

-- srad-types/src/lib.rs
pub data MetricId : Type 0 where
  name : Text → MetricId
  alias : ℕ → MetricId

pub data PayloadMetricError : Type 0 where
  missing_timestamp : PayloadMetricError
  missing_datatype : PayloadMetricError
  invalid_datatype : PayloadMetricError
  missing_name : PayloadMetricError
  not_null_no_value : PayloadMetricError
  invalid_properties : PayloadMetricError

-- The value of `OutOfRange` is the bit pattern of the `i64`.
pub data BdseqError : Type 0 where
  missing : BdseqError
  missing_value : BdseqError
  invalid_type : BdseqError
  out_of_range : ℕ → BdseqError

-- An `i64` is its 64-bit pattern: `long_value` is read as one by `as i64`, any other variant is
-- refused. The pattern is negative from 2 ^ 63 on, so the range test of a `u8` is one test.
unfoldable pub i64_from_value : Value → Result BdseqError ℕ
i64_from_value (Value.long_value v) = ok v
i64_from_value _ = err invalid_type

unfoldable pub in_u8_range : ℕ → Result BdseqError ℕ
in_u8_range v = if ltb v 256 then ok v else err (out_of_range v)

unfoldable pub bdseq_value : Option Value → Result BdseqError ℕ
bdseq_value none = err missing_value
bdseq_value (some v) = i64_from_value v >>= in_u8_range

abbrev pub is_bdseq : Option Text → Bool
is_bdseq none = false
is_bdseq (some n) = list_eq.beq n bdseq

unfoldable pub bdseq_from_payload_metrics : List Metric → Result BdseqError ℕ
unfolding i64_from_value in_u8_range bdseq_value
bdseq_from_payload_metrics [] = err missing
bdseq_from_payload_metrics (x ∷ xs) =
    if is_bdseq (fields x).name then bdseq_value (value x) else bdseq_from_payload_metrics xs

pub record MetricBirthDetails : Type 0 where
  pub name : Text
  pub alias : Option ℕ
  pub datatype : DataType

unfoldable pub get_metric_id : MetricBirthDetails → MetricId
get_metric_id d = elim d.alias [ some a ↦ MetricId.alias a | none ↦ MetricId.name d.name ]

pub record MetricDetails : Type 0 where
  pub value : Option Value
  pub properties : Option Properties
  pub metadata : Option MetaData
  pub timestamp : ℕ
  pub is_historical : Bool
  pub is_transient : Bool

abbrev or_false : Option Bool → Bool
or_false none = false
or_false (some b) = b

details_value : Option Value → Option Bool → Result PayloadMetricError (Option Value)
details_value (some v) is_null = ok (some v)
details_value none (some true) = ok none
details_value none (some false) = err not_null_no_value
details_value none none = err not_null_no_value

details_properties : Option PropertySet → Result PayloadMetricError (Option Properties)
details_properties none = ok none
details_properties (some ps) = elim (from_proto ps) [
  | ok p ↦ ok (some p)
  | err e ↦ err invalid_properties
]

-- The macro `metric_details_try_from_payload_metric`.
unfoldable pub details_from_metric : Metric → Result PayloadMetricError MetricDetails
unfolding details_value details_properties
details_from_metric x = do
  t ← ok_or (fields x).timestamp missing_timestamp
  v ← details_value (value x) (fields x).is_null
  p ← details_properties (fields x).properties
  ok (record {
    value = v;
    properties = p;
    metadata = (fields x).metadata;
    timestamp = t;
    is_historical = or_false (fields x).is_historical;
    is_transient = or_false (fields x).is_transient;
  })

metric_id : Option ℕ → Option Text → Result PayloadMetricError MetricId
metric_id (some a) n = ok (MetricId.alias a)
metric_id none (some n) = ok (MetricId.name n)
metric_id none none = err missing_name

-- The body of the loop of `get_metric_id_and_details_from_payload_metrics`.
unfoldable pub id_and_details : Metric → Result PayloadMetricError (MetricId × MetricDetails)
unfolding metric_id
id_and_details x = do
  id ← metric_id (fields x).alias (fields x).name
  d ← details_from_metric x
  ok (id, d)

abbrev datatype_of : Option DataType → Result PayloadMetricError DataType
datatype_of none = err invalid_datatype
datatype_of (some d) = ok d

-- The body of the loop of `get_metric_birth_details_from_birth_metrics`.
unfoldable pub birth_details :
    Metric → Result PayloadMetricError (MetricBirthDetails × MetricDetails)
birth_details x = do
  c ← ok_or (fields x).datatype missing_datatype
  t ← datatype_of (from_code c)
  n ← ok_or (fields x).name missing_name
  d ← details_from_metric x
  ok (record { name = n; alias = (fields x).alias; datatype = t }, d)

-- Both loops end at the first metric that is refused.
abbrev pub collect {ℓ} :
    {A : Type ℓ}
    → (Metric → Result PayloadMetricError A)
    → List Metric
    → Result PayloadMetricError (List A)
collect f [] = ok []
collect f (x ∷ xs) = f x >>= λ a. collect f xs >>= λ as'. ok (a ∷ as')

unfoldable pub get_metric_id_and_details_from_payload_metrics :
    List Metric → Result PayloadMetricError (List (MetricId × MetricDetails))
get_metric_id_and_details_from_payload_metrics = collect id_and_details

unfoldable pub get_metric_birth_details_from_birth_metrics :
    List Metric → Result PayloadMetricError (List (MetricBirthDetails × MetricDetails))
get_metric_birth_details_from_birth_metrics = collect birth_details

pub record PublishMetric : Type 0 where
  pub metric_identifier : MetricId
  pub value : Value
  pub timestamp : Option ℕ
  pub datatype : Option DataType

identify : MetricId → Metric → Metric
identify (MetricId.name n) m = Payload.set_name n m
identify (MetricId.alias a) m = Payload.set_alias a m

abbrev set_datatype_if : Option DataType → Metric → Metric
set_datatype_if none m = m
set_datatype_if (some d) m = Payload.set_datatype (code d) m

abbrev with_timestamp : Option ℕ → Metric → Metric
with_timestamp t (Metric.unvalued m) = Metric.unvalued (record m { timestamp = t })
with_timestamp t (Metric.valued m v) = Metric.valued (record m { timestamp = t }) v

-- `From<PublishMetric> for Metric`; the last line of the source assigns the timestamp as it is.
unfoldable pub to_metric : PublishMetric → Metric
unfolding identify Payload.new Payload.set_name Payload.set_alias Payload.set_value
    Payload.set_datatype
to_metric p =
    let m =
      set_datatype_if p.datatype
        (Payload.set_value p.value (identify p.metric_identifier Payload.new)) in
    with_timestamp p.timestamp m

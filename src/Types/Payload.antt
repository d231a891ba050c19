-- ===== src/Types/Payload.antt =====
-- The protobuf messages of srad-types/src/generated/sparkplug_payload.rs. An optional field is an
-- `Option`; a `float` or `double` is its bit pattern; the lists and the optional values that hold
-- messages of their own kind are data types of the block.
use srad.Prelude.{ℕ, Bool, Option, none, some, List}
use srad.Types.Text.{Text}

pub record MetaData : Type 0 where
  pub is_multi_part : Option Bool
  pub content_type : Option Text
  pub size : Option ℕ
  pub seq : Option ℕ
  pub file_name : Option Text
  pub file_type : Option Text
  pub md5 : Option Text
  pub description : Option Text

pub data DataSetContent : Type 0 where
  int_value : ℕ → DataSetContent
  long_value : ℕ → DataSetContent
  float_value : ℕ → DataSetContent
  double_value : ℕ → DataSetContent
  boolean_value : Bool → DataSetContent
  string_value : Text → DataSetContent
  extension_value : DataSetContent

pub record DataSet : Type 0 where
  pub num_of_columns : Option ℕ
  pub columns : List Text
  pub types : List ℕ
  pub rows : List (List (Option DataSetContent))

pub data ParameterContent : Type 0 where
  int_value : ℕ → ParameterContent
  long_value : ℕ → ParameterContent
  float_value : ℕ → ParameterContent
  double_value : ℕ → ParameterContent
  boolean_value : Bool → ParameterContent
  string_value : Text → ParameterContent
  extension_value : ParameterContent

pub record Parameter : Type 0 where
  pub name : Option Text
  pub type : Option ℕ
  pub value : Option ParameterContent

mutual
  pub data PropertyContent : Type 0 where
    int_value : ℕ → PropertyContent
    long_value : ℕ → PropertyContent
    float_value : ℕ → PropertyContent
    double_value : ℕ → PropertyContent
    boolean_value : Bool → PropertyContent
    string_value : Text → PropertyContent
    propertyset_value : PropertySet → PropertyContent
    propertysets_value : PropertySetList → PropertyContent
    extension_value : PropertyContent

  -- Fields `type`, `is_null` and `value`.
  pub data PropertyValue : Type 0 where
    unvalued : Option ℕ → Option Bool → PropertyValue
    valued : Option ℕ → Option Bool → PropertyContent → PropertyValue

  pub data PropertyValues : Type 0 where
    nil : PropertyValues
    cons : PropertyValue → PropertyValues → PropertyValues

  -- Fields `keys` and `values`.
  pub data PropertySet : Type 0 where
    property_set : List Text → PropertyValues → PropertySet

  pub data PropertySetList : Type 0 where
    no_sets : PropertySetList
    set_and : PropertySet → PropertySetList → PropertySetList

-- The fields of a `Metric` but its `value`.
pub record MetricFields : Type 0 where
  pub name : Option Text
  pub alias : Option ℕ
  pub timestamp : Option ℕ
  pub datatype : Option ℕ
  pub is_historical : Option Bool
  pub is_transient : Option Bool
  pub is_null : Option Bool
  pub metadata : Option MetaData
  pub properties : Option PropertySet

mutual
  -- `metric::Value`
  pub data Value : Type 0 where
    int_value : ℕ → Value
    long_value : ℕ → Value
    float_value : ℕ → Value
    double_value : ℕ → Value
    boolean_value : Bool → Value
    string_value : Text → Value
    bytes_value : List ℕ → Value
    dataset_value : DataSet → Value
    template_value : Template → Value
    extension_value : Value

  pub data Metric : Type 0 where
    unvalued : MetricFields → Metric
    valued : MetricFields → Value → Metric

  pub data Metrics : Type 0 where
    nil : Metrics
    cons : Metric → Metrics → Metrics

  -- Fields `version`, `metrics`, `parameters`, `template_ref` and `is_definition`.
  pub data Template : Type 0 where
    template : Option Text → Metrics → List Parameter → Option Text → Option Bool → Template

abbrev pub fields : Metric → MetricFields
fields (Metric.unvalued f) = f
fields (Metric.valued f v) = f

abbrev pub value : Metric → Option Value
value (Metric.unvalued f) = none
value (Metric.valued f v) = some v

pub record Payload : Type 0 where
  pub timestamp : Option ℕ
  pub metrics : List Metric
  pub seq : Option ℕ
  pub uuid : Option Text
  pub body : Option (List ℕ)

abbrev pub no_fields : MetricFields
no_fields = record {
  name = none;
  alias = none;
  timestamp = none;
  datatype = none;
  is_historical = none;
  is_transient = none;
  is_null = none;
  metadata = none;
  properties = none;
}

-- srad-types/src/payload.rs, `impl Metric`: the setters return the changed metric.
unfoldable pub new : Metric
new = Metric.unvalued no_fields

abbrev with_fields : (MetricFields → MetricFields) → Metric → Metric
with_fields f (Metric.unvalued m) = Metric.unvalued (f m)
with_fields f (Metric.valued m v) = Metric.valued (f m) v

unfoldable pub set_name : Text → Metric → Metric
set_name n = with_fields (λ m. record m { name = some n })

unfoldable pub set_alias : ℕ → Metric → Metric
set_alias a = with_fields (λ m. record m { alias = some a })

unfoldable pub set_datatype : ℕ → Metric → Metric
set_datatype d = with_fields (λ m. record m { datatype = some d })

unfoldable pub set_timestamp : ℕ → Metric → Metric
set_timestamp t = with_fields (λ m. record m { timestamp = some t })

unfoldable pub set_value : Value → Metric → Metric
set_value v m = Metric.valued (record (fields m) { is_null = none }) v

unfoldable pub set_null : Metric → Metric
set_null m = Metric.unvalued (record (fields m) { is_null = some Bool.true })

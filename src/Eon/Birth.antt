-- ===== src/Eon/Birth.antt =====
-- srad-eon/src/birth.rs: the metrics of a birth, with their names and aliases.
pub mod Names
pub mod Aliases
use srad.Prelude.{
  ℕ, ◌+◌, ◌*◌, ◌%◌, Bool, true, false, Option, none, some, List, [], ◌∷◌, ◌++◌, not, if◌then◌else◌,
  Result, ok, err, ◌>>=◌, list_eq, nat_eq, lookup, contains, length, is_some,
}
use srad.Types.Text.{Text}
use srad.Types.DataType
use srad.Types.DataType.{DataType, code}
use srad.Types.Payload
use srad.Types.Payload.{Value, Metric, MetaData, fields, value}
use srad.Types.Properties.{Properties, to_proto}
use srad.Types.Templates.{
  TemplateDefinition, TemplateInstance, definition_to_value, instance_to_value,
}
use srad.App.Metrics.{MetricId}
use srad.Eon.Ids.{next_free}
use srad.Eon.Templates.{TemplateRegistry, is_template}

pub data AliasConfig : Type 0 where
  no_alias : AliasConfig
  generate : AliasConfig
  custom : ℕ → AliasConfig

pub data BirthMetricError : Type 0 where
  duplicate_metric : BirthMetricError
  metric_value_datatype_mismatch : BirthMetricError
  unsupported_datatype : BirthMetricError
  value_not_provided : BirthMetricError
  unregistered_template : BirthMetricError
  alias_not_unique : BirthMetricError

-- A value of the type `T` is what its conversion makes of it: a `Value`, or a template's instance.
pub record BirthMetricDetails (T : Type 0) : Type 0 where
  pub name : Text
  pub alias : AliasConfig
  pub datatype : DataType
  pub initial_value : Option T
  pub metadata : Option MetaData
  pub properties : Option Properties
  pub timestamp : ℕ

-- The clock's reading is the last argument.
unfoldable pub new_details : {T : Type 0} → Text → Option T → DataType → ℕ → BirthMetricDetails T
new_details name initial_value datatype timestamp = record {
  name = name;
  alias = generate;
  datatype = datatype;
  initial_value = initial_value;
  metadata = none;
  properties = none;
  timestamp = timestamp;
}

abbrev supports : DataType → List DataType → Bool
supports d [] = false
supports d (x ∷ xs) = if nat_eq.beq (code x) (code d) then true else supports d xs

-- The datatypes that the type supports are the first argument.
unfoldable pub new_with_explicit_datatype :
    {T : Type 0}
    → List DataType
    → Text
    → DataType
    → Option T
    → ℕ
    → Result BirthMetricError (BirthMetricDetails T)
unfolding new_details
new_with_explicit_datatype supported name datatype initial_value timestamp =
    if not (supports datatype supported)
    then err metric_value_datatype_mismatch
    else ok (new_details name initial_value datatype timestamp)

abbrev pub properties_to_proto : Option Properties → Option Payload.PropertySet
properties_to_proto none = none
properties_to_proto (some p) = some (to_proto p)

unfoldable pub into_metric_value : {T : Type 0} → BirthMetricDetails T → Option Value → Metric
unfolding Payload.new Payload.set_name Payload.set_datatype
into_metric_value d v =
    let m = fields (Payload.set_datatype (code d.datatype) (Payload.set_name d.name Payload.new)) in
    elim v [
      | none ↦ Metric.unvalued (record m {
        timestamp = some d.timestamp;
        metadata = d.metadata;
        is_null = some true;
        properties = properties_to_proto d.properties;
      })
      | some c ↦
          Metric.valued
            (record m {
              timestamp = some d.timestamp;
              metadata = d.metadata;
              properties = properties_to_proto d.properties;
            })
            c
    ]

pub data BirthObjectType : Type 0 where
  node : BirthObjectType
  device : ℕ → BirthObjectType

pub record BirthInitializer : Type 0 where
  pub birth_metrics : List Metric
  pub metric_names : List Text
  pub metric_aliases : List ℕ
  pub inserter_type : BirthObjectType
  pub template_registry : TemplateRegistry

unfoldable pub new : BirthObjectType → TemplateRegistry → BirthInitializer
new inserter_type template_registry = record {
  birth_metrics = [];
  metric_names = [];
  metric_aliases = [];
  inserter_type = inserter_type;
  template_registry = template_registry;
}

abbrev pub two_32 : ℕ
two_32 = 4294967296

abbrev pub two_64 : ℕ
two_64 = 18446744073709551616

abbrev pub id_part : BirthObjectType → ℕ
id_part node = 0
id_part (device id) = id

unfoldable pub identify : MetricId → Metric → Metric
unfolding Payload.set_alias
identify (MetricId.alias a) m = Payload.set_alias a m
identify (MetricId.name n) m = m

-- What a metric manager calls in `initialise_birth`. A call that is refused returns its error to
-- the manager.
pub data Registration : Type 0 where
  metric : BirthMetricDetails Value → Registration
  template_metric : BirthMetricDetails TemplateInstance → Registration

abbrev pub named : Text → MetricId × BirthInitializer → MetricId × BirthInitializer
named name (id, b) = (id, record b { metric_names = b.metric_names ++ name ∷ [] })

unfoldable pub push :
    {T : Type 0}
    → BirthMetricDetails T
    → Option Value
    → MetricId × BirthInitializer
    → MetricId × BirthInitializer
unfolding into_metric_value
push d v (id, b) =
    (id, record b { birth_metrics = b.birth_metrics ++ identify id (into_metric_value d v) ∷ [] })

abbrev pub after :
    BirthInitializer → Result BirthMetricError (MetricId × BirthInitializer) → BirthInitializer
after b (ok (id, b')) = b'
after b (err e) = b

-- The hash of a name, a `u64`, is Rust's `DefaultHasher`'s.
module _ (hash : Text → ℕ) where
  -- The id's bits stand above those of the hash, so `|` is a sum.
  pub first_alias : BirthObjectType → Text → ℕ
  first_alias t name = id_part t * two_32 + hash name % two_32

  unfoldable pub generate_alias : Text → BirthInitializer → ℕ × BirthInitializer
  unfolding first_alias next_free
  generate_alias name b =
      let alias =
        next_free two_64 (length b.metric_aliases) b.metric_aliases
          (first_alias b.inserter_type name) in
      (alias, record b { metric_aliases = b.metric_aliases ++ alias ∷ [] })

  unfoldable pub create_metric_token :
      Text → AliasConfig → BirthInitializer → Result BirthMetricError (MetricId × BirthInitializer)
  unfolding generate_alias
  create_metric_token name config b =
      if contains name b.metric_names then err duplicate_metric else elim config [
        | no_alias ↦ ok (named name (MetricId.name name, b))
        | generate ↦ let r = generate_alias name b in ok (named name (MetricId.alias r.0, r.1))
        | custom alias ↦
            if contains alias b.metric_aliases
            then err alias_not_unique
            else ok (named name (MetricId.alias alias, b))
      ]

  -- The clock's reading is the first argument.
  unfoldable pub register_template_definition :
      ℕ → Text → TemplateDefinition → BirthInitializer → Result BirthMetricError BirthInitializer
  unfolding Payload.new definition_to_value
  register_template_definition timestamp name definition b =
      if contains name b.metric_names
      then err duplicate_metric
      else ok (record b {
        metric_names = b.metric_names ++ name ∷ [];
        birth_metrics =
            b.birth_metrics
            ++ Metric.valued
                (record (fields Payload.new) {
                  name = some name;
                  datatype = some (code DataType.template);
                  timestamp = some timestamp;
                })
                (definition_to_value definition)
              ∷ [];
      })

  -- As in a release build: a debug build panics on a datatype of templates, here, and on a template
  -- without an initial value, below.
  unfoldable pub register_metric :
      BirthMetricDetails Value
      → BirthInitializer
      → Result BirthMetricError (MetricId × BirthInitializer)
  unfolding create_metric_token
  register_metric d b =
      if is_template d.datatype
      then err unsupported_datatype
      else create_metric_token d.name d.alias b >>= λ t. ok (push d d.initial_value t)

  unfoldable pub register_template_metric :
      BirthMetricDetails TemplateInstance
      → BirthInitializer
      → Result BirthMetricError (MetricId × BirthInitializer)
  unfolding create_metric_token instance_to_value
  register_template_metric d b = elim d.initial_value [
    | none ↦ err value_not_provided
    | some i ↦
        if not (is_some (lookup i.template_ref b.template_registry))
        then err unregistered_template
        else create_metric_token d.name d.alias b >>= λ t.
            ok (push d (some (instance_to_value i)) t)
  ]

  unfoldable pub registered : Registration → BirthInitializer → BirthInitializer
  unfolding register_metric register_template_metric
  registered (metric d) b = after b (register_metric d b)
  registered (template_metric d) b = after b (register_template_metric d b)

  unfoldable pub initialise_birth : List Registration → BirthInitializer → BirthInitializer
  unfolding registered
  initialise_birth [] b = b
  initialise_birth (r ∷ rs) b = initialise_birth rs (registered r b)

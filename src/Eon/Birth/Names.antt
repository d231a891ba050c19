-- ===== src/Eon/Birth/Names.antt =====
-- The names of the metrics of a birth: each metric has one, and no name occurs twice.
use srad.Prelude.{
  ℕ, ◌≡◌, refl, sym, ap, ap₂, ◌∙◌, if_cases, Option-cases, not, is_some, lookup, Option, none, some,
  List, [], ◌∷◌, ◌++◌, map, map-append, ok, false, ◌>>=◌, contains, Unique, Unique-append, list_eq,
  nat_eq, Bool-cases, inl, inr,
}
use srad.Types.Text.{Text}
use srad.Types.Payload.{Metric, Value, fields}
use srad.Types.Payload
use srad.Types.Properties.{Properties}
use srad.App.Metrics.{MetricId}
use srad.Types.Templates.{TemplateInstance, instance_to_value}
use srad.Eon.Templates.{is_template}
use srad.Eon.Birth.{
  BirthInitializer, BirthMetricDetails, Registration, metric, template_metric, AliasConfig,
  no_alias, generate, custom, create_metric_token, generate_alias, into_metric_value, identify,
  push, after, register_metric, register_template_metric, registered, initialise_birth,
}

abbrev pub metric_name : Metric → Option Text
metric_name m = (fields m).name

-- The names that are taken are those of the metrics, in order, and no two are equal.
pub record HasNames (b : BirthInitializer) : Type 0 where
  pub names : map metric_name b.birth_metrics ≡ map some b.metric_names
  pub unique : Unique b.metric_names

metric_name-added :
    {T : Type 0} (id : MetricId) (d : BirthMetricDetails T) (v : Option Value)
    → metric_name (identify id (into_metric_value d v)) ≡ some d.name
unfolding into_metric_value Payload.new Payload.set_name Payload.set_datatype Payload.set_alias
    identify
metric_name-added (MetricId.name n) d none = refl
metric_name-added (MetricId.name n) d (some v) = refl
metric_name-added (MetricId.alias a) d none = refl
metric_name-added (MetricId.alias a) d (some v) = refl

abbrev pub config : Registration → AliasConfig
config (metric d) = d.alias
config (template_metric d) = d.alias

abbrev pub properties : Registration → Option Properties
properties (metric d) = d.properties
properties (template_metric d) = d.properties

module _ (hash : Text → ℕ) where
  -- The identifier that a token gets, and the aliases that are then taken.
  abbrev pub token_id : Text → AliasConfig → BirthInitializer → MetricId
  token_id name no_alias b = MetricId.name name
  token_id name generate b = MetricId.alias (generate_alias hash name b).0
  token_id name (custom a) b = MetricId.alias a

  abbrev pub token_aliases : Text → AliasConfig → BirthInitializer → List ℕ
  token_aliases name no_alias b = b.metric_aliases
  token_aliases name generate b = b.metric_aliases ++ (generate_alias hash name b).0 ∷ []
  token_aliases name (custom a) b = b.metric_aliases

  abbrev pub added :
      {T : Type 0}
      → AliasConfig
      → BirthMetricDetails T
      → Option Value
      → BirthInitializer
      → BirthInitializer
  added a d v b = record b {
    birth_metrics = b.birth_metrics ++ identify (token_id d.name a b) (into_metric_value d v) ∷ [];
    metric_names = b.metric_names ++ d.name ∷ [];
    metric_aliases = token_aliases d.name a b;
  }

  -- A metric whose name is new is added, or nothing changes.
  token_cases :
      {T : Type 0} (P : BirthInitializer → Type 0) (a : AliasConfig) (d : BirthMetricDetails T)
      (v : Option Value) (b : BirthInitializer)
      → P b
      → (contains d.name b.metric_names ≡ false → P (added a d v b))
      → P (after b (create_metric_token hash d.name a b >>= λ t. ok (push d v t)))
  unfolding create_metric_token generate_alias push
  token_cases P no_alias d v b same more = elim (Bool-cases (contains d.name b.metric_names)) [
    | inl f ↦ rw f same
    | inr f ↦ rw f (more f)
  ]
  token_cases P generate d v b same more = elim (Bool-cases (contains d.name b.metric_names)) [
    | inl f ↦ rw f same
    | inr f ↦ rw f (more f)
  ]
  token_cases P (custom a) d v b same more = elim (Bool-cases (contains d.name b.metric_names)) [
    | inl f ↦ rw f same
    | inr f ↦ elim (Bool-cases (contains a b.metric_aliases)) [
      | inl g ↦ rw (f, g) same
      | inr g ↦ rw (f, g) (more f)
    ]
  ]

  -- So does every registration.
  pub registered_cases :
      (P : BirthInitializer → Type 0) (r : Registration) (b : BirthInitializer)
      → P b
      → ((T : Type 0) (d : BirthMetricDetails T) (v : Option Value)
          → config r ≡ d.alias
          → properties r ≡ d.properties
          → contains d.name b.metric_names ≡ false
          → P (added d.alias d v b))
      → P (registered hash r b)
  unfolding registered register_metric register_template_metric
  registered_cases P (metric d) b same more =
      if_cases (λ x. P (after b x)) (is_template d.datatype) _ _ (λ e. same)
        (λ e.
          token_cases P d.alias d d.initial_value b same (more Value d d.initial_value refl refl))
  registered_cases P (template_metric d) b same more = elim (Option-cases d.initial_value) [
    | inl e ↦ rw (e, after) same
    | inr (i, e) ↦
        rw (e, after)
          (if_cases (λ x. P (after b x)) (not (is_some (lookup i.template_ref b.template_registry)))
            _ _ (λ f. same)
            (λ f.
              token_cases P d.alias d (some (instance_to_value i)) b same
                (more TemplateInstance d (some (instance_to_value i)) refl refl)))
  ]

  registered-HasNames :
      (r : Registration) (b : BirthInitializer) → HasNames b → HasNames (registered hash r b)
  registered-HasNames r b h = registered_cases HasNames r b h (λ T d v c p f. record {
    names =
        map-append metric_name b.birth_metrics _
        ∙ ap₂ ◌++◌ h.names (ap (λ x. x ∷ []) (metric_name-added _ d v))
        ∙ sym (map-append some b.metric_names _);
    unique = Unique-append d.name b.metric_names f h.unique;
  })

  -- Whatever a metric manager registers, in whatever order, with errors or without: each metric of
  -- the birth has a name, no name occurs twice, and the names that are taken are those.
  pub initialise_birth-HasNames :
      (rs : List Registration) (b : BirthInitializer)
      → HasNames b
      → HasNames (initialise_birth hash rs b)
  unfolding initialise_birth
  initialise_birth-HasNames [] b h = h
  initialise_birth-HasNames (r ∷ rs) b h =
      initialise_birth-HasNames rs (registered hash r b) (registered-HasNames r b h)

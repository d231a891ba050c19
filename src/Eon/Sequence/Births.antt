-- ===== src/Eon/Sequence/Births.antt =====
-- The birth of an edge node: its payload, and what it does to the sequence.
use srad.Prelude.{
  ℕ, ◌<◌, ◌≡◌, refl, false, none, some, List, [], ◌∷◌, ◌++◌, ok, Returns, Returns-then, Returns-imp,
  arith, list_eq, nat_eq, contains, contains-append, lookup, Eq,
}
use srad.Types.Text
use srad.Types.Text.{Text, node_control_rebirth}
use srad.Types.Payload
use srad.Types.Payload.{Payload, Metric, MetricFields, Value, fields}
use srad.App.Metrics.{MetricId, bdseq_from_payload_metrics}
use srad.Eon.Birth.{
  BirthInitializer, Registration, registered, initialise_birth, register_metric,
  register_template_definition, create_metric_token, into_metric_value, push, identify,
}
use srad.Types.DataType
use srad.Types.DataType.{code}
use srad.Types.Templates.{TemplateDefinition, definition_to_value}
use srad.Eon.Birth
use srad.Eon.Birth.Names.{registered_cases}
use srad.Eon.Templates.{TemplateRegistry}
use srad.Eon.State.{World}
use srad.Eon.Node.{Node, generate_birth_payload, register_definitions, plain, finished}

-- Neither of the two names that every birth has.
abbrev pub Unreserved : Text → Type 0
Unreserved name =
    (list_eq.beq Text.bdseq name ≡ false) × (list_eq.beq node_control_rebirth name ≡ false)

-- No template has another's name, or a name that every birth has.
abbrev pub Registrable : TemplateRegistry → Type 0
Registrable [] = Unit
Registrable ((name, d) ∷ r) = Unreserved name × (lookup name r ≡ none) × Registrable r

-- The metrics of a birth, the first of which holds the `bdSeq`.
abbrev pub Reads : ℕ → List Metric → Type 0
Reads b ms = bdseq_from_payload_metrics ms ≡ ok b

pub Reads-append : (b : ℕ) (ms ns : List Metric) → Reads b ms → Reads b (ms ++ ns)
unfolding bdseq_from_payload_metrics
Reads-append b [] ns h = ground arith
Reads-append b (m ∷ ms) ns h = ground (arith, Reads-append b ms ns)

Reads-first :
    (q : ℕ) (f : MetricFields) (ms : List Metric)
    → f.name ≡ some Text.bdseq
    → q < 256
    → Reads q (Metric.valued f (Value.long_value q) ∷ ms)
unfolding bdseq_from_payload_metrics
Reads-first q f ms e l = rw e (ground arith)

abbrev text_eq : Eq Text
text_eq = list_eq

-- None of the names is taken.
Free : TemplateRegistry → List Text → Type 0
Free [] names = Unit
Free ((k, d) ∷ r) names = (contains k names ≡ false) × Free r names

Free-append :
    (name : Text) (r : TemplateRegistry) (names : List Text)
    → lookup name r ≡ none
    → Free r names
    → Free r (names ++ name ∷ [])
unfolding Free lookup
Free-append name [] names l f = tt
Free-append name ((k, d) ∷ r) names l f = (
  ground (arith, contains-append k name names, text_eq.beq_iff k name, text_eq.beq_iff name k, f.0),
  Free-append name r names (ground arith) f.1,
)

Free-first :
    (r : TemplateRegistry) → Registrable r → Free r (Text.bdseq ∷ node_control_rebirth ∷ [])
unfolding Free contains
Free-first [] h = tt
Free-first ((k, d) ∷ r) h = (ground (arith, h.0.0, h.0.1), Free-first r h.2)

module _ (hash : Text → ℕ) where
  pub initialise_birth-Reads :
      (q : ℕ) (rs : List Registration) (b : BirthInitializer)
      → Reads q b.birth_metrics
      → Reads q (initialise_birth hash rs b).birth_metrics
  unfolding initialise_birth
  initialise_birth-Reads q [] b h = h
  initialise_birth-Reads q (r ∷ rs) b h = initialise_birth-Reads q rs (registered hash r b) (
      registered_cases hash (λ b'. Reads q b'.birth_metrics) r b h
        (λ T d v e p f. Reads-append q b.birth_metrics _ h))

-- The payload of a birth.
pub record IsBirth (q : ℕ) (p : Payload) : Type 0 where
  pub seq : p.seq ≡ some 0
  pub reads : Reads q p.metrics

module _ (W : World) where
  -- The metric of a template's definition.
  abbrev pub definition_metric : ℕ → Text → TemplateDefinition → Metric
  definition_metric t name d =
      Metric.valued
        (record (fields Payload.new) {
          name = some name;
          datatype = some (code DataType.template);
          timestamp = some t;
        })
        (definition_to_value d)

  -- The two metrics that every birth begins with.
  abbrev pub first_metrics : ℕ → ℕ → List Metric
  first_metrics q t =
      identify (MetricId.name Text.bdseq) (
        into_metric_value (plain W Text.bdseq (Value.long_value q) DataType.int64 t)
          (some (Value.long_value q)))
      ∷ identify (MetricId.name node_control_rebirth) (
          into_metric_value
            (plain W node_control_rebirth (Value.boolean_value false) DataType.boolean t)
            (some (Value.boolean_value false)))
      ∷ []

  -- The definitions of a registry are registered without a panic, and keep what adding one keeps.
  register_definitions-Returns :
      (P : List Metric → Type 0) (t : ℕ) (r : TemplateRegistry) (b : BirthInitializer)
      → ((name : Text) (d : TemplateDefinition) (ms : List Metric)
          → P ms
          → P (ms ++ definition_metric t name d ∷ []))
      → Registrable r
      → Free r b.metric_names
      → P b.birth_metrics
      → Returns (λ b'. P b'.birth_metrics) (register_definitions W t r b)
  unfolding register_definitions register_template_definition Free
  register_definitions-Returns P t [] b k h f p = p
  register_definitions-Returns P t ((n, d) ∷ r) b k h f p = rw f.0 (
      register_definitions-Returns P t r _ k h.2 (Free-append n r b.metric_names h.1 f.1)
        (k n d b.birth_metrics p))

  -- What is known of a payload, and of its metrics.
  pub record HasMetrics (P : List Metric → Type 0) (t : ℕ) (p : Payload) : Type 0 where
    pub seq : p.seq ≡ some 0
    pub timestamp : p.timestamp ≡ some t
    pub metrics : P p.metrics

  finished-HasMetrics :
      (P : List Metric → Type 0) (t : ℕ) (rs : List Registration) (b : BirthInitializer)
      → P (initialise_birth W.hash rs b).birth_metrics
      → HasMetrics P t (finished W 0 t rs b)
  unfolding finished
  finished-HasMetrics P t rs b p = record { seq = refl; timestamp = refl; metrics = p }

  -- The payload of a birth is made without a panic, and keeps what adding metrics keeps.
  pub generate_birth_payload-HasMetrics :
      (P : List Metric → Type 0) (q : ℕ) (n : Node)
      → ((name : Text) (d : TemplateDefinition) (ms : List Metric)
          → P ms
          → P (ms ++ definition_metric (W.timestamp n.core.calls) name d ∷ []))
      → ((b : BirthInitializer)
          → P b.birth_metrics
          → P (initialise_birth W.hash (W.node_metrics n.core.calls) b).birth_metrics)
      → Registrable n.template_registry
      → P (first_metrics q (W.timestamp n.core.calls))
      → Returns (HasMetrics P (W.timestamp n.core.calls)) (generate_birth_payload W q 0 n)
  unfolding generate_birth_payload register_metric create_metric_token Birth.new push contains
  generate_birth_payload-HasMetrics P q n k i h f =
      let t = W.timestamp n.core.calls in
      Returns-then {P = λ b. P b.birth_metrics} (HasMetrics P t) _ _
        (register_definitions-Returns P t n.template_registry _ k h
          (Free-first n.template_registry h) f)
        (λ b p. finished-HasMetrics P t (W.node_metrics n.core.calls) b (i b p))

  pub first-Reads : (q t : ℕ) → q < 256 → Reads q (first_metrics q t)
  unfolding identify into_metric_value Payload.set_name Payload.set_datatype plain
  first-Reads q t l = Reads-first q _ _ refl l

  -- The payload of a node's birth is made without a panic; its `bdSeq` is found.
  pub generate_birth_payload-IsBirth :
      (q : ℕ) (n : Node)
      → q < 256
      → Registrable n.template_registry
      → Returns (IsBirth q) (generate_birth_payload W q 0 n)
  generate_birth_payload-IsBirth q n l h =
      Returns-imp (generate_birth_payload W q 0 n)
        (λ p b. record { seq = b.seq; reads = b.metrics })
        (generate_birth_payload-HasMetrics (Reads q) q n (λ name d ms r. Reads-append q ms _ r)
          (λ b r. initialise_birth-Reads W.hash q (W.node_metrics n.core.calls) b r) h
          (first-Reads q (W.timestamp n.core.calls) l))

-- ===== src/Eon/Sequence/Accepted.antt =====
-- The birth of an edge node is accepted by an application.
use srad.Prelude.{
  ℕ, ◌<◌, ◌≡◌, refl, sym, Option, none, some, List, [], ◌∷◌, ◌++◌, ok, Returns, Returns-imp,
  Distinct, All, list_eq, nat_eq,
}
use srad.Types.Text
use srad.Types.Text.{Text, node_control_rebirth}
use srad.Types.DataType.{DataType, code, from_code, from_code_iff}
use srad.Types.Payload
use srad.Types.Payload.{Payload, Metric, Value, fields}
use srad.Types.Properties.{Properties}
use srad.Types.Properties.RoundTrip.{from_proto-to_proto}
use srad.Types.Templates.{TemplateDefinition, definition_to_value}
use srad.App.Metrics.{
  MetricId, MetricBirthDetails, MetricDetails, birth_details, details_from_metric, collect,
  get_metric_birth_details_from_birth_metrics,
}
use srad.App.Metrics.Complete.{Readable, birth_details-accepts}
use srad.App.Payloads.{NBirth, nbirth_from_payload}
use srad.App.Payloads.Accepts.{nbirth_from_payload_steps}
use srad.Eon.Birth.{
  BirthInitializer, BirthMetricDetails, Registration, initialise_birth, registered,
  into_metric_value, identify, properties_to_proto,
}
use srad.Eon.Birth.Names.{registered_cases, properties}
use srad.Eon.State.{World}
use srad.Eon.Sequence.Births.{
  HasMetrics, Reads, Reads-append, Registrable, first_metrics, first-Reads, initialise_birth-Reads,
  generate_birth_payload-HasMetrics,
}
use srad.Eon.Node.{Node, generate_birth_payload, plain}

-- What an application reads of a metric of a birth.
abbrev Complete : Metric → Type 0
Complete m = (d : MetricBirthDetails × MetricDetails) × (birth_details m ≡ ok d)

-- A property set has no key twice.
abbrev pub Keyed : Option Properties → Type 0
Keyed none = Unit
Keyed (some p) = Distinct p

known : (d : DataType) → from_code (code d) ≡ some d
known d = (from_code_iff (code d) d).1 refl

complete :
    {T : Type 0} (id : MetricId) (d : BirthMetricDetails T) (v : Option Value)
    (ps : Option Properties)
    → d.properties ≡ ps
    → Readable (properties_to_proto ps)
    → Complete (identify id (into_metric_value d v))
unfolding into_metric_value identify Payload.new Payload.set_name Payload.set_datatype
    Payload.set_alias
complete (MetricId.name n) d none ps e r =
    birth_details-accepts _ d.name (code d.datatype) d.timestamp d.datatype refl refl
      (known d.datatype) refl refl (rw e r)
complete (MetricId.name n) d (some v) ps e r =
    birth_details-accepts _ d.name (code d.datatype) d.timestamp d.datatype refl refl
      (known d.datatype) refl tt (rw e r)
complete (MetricId.alias a) d none ps e r =
    birth_details-accepts _ d.name (code d.datatype) d.timestamp d.datatype refl refl
      (known d.datatype) refl refl (rw e r)
complete (MetricId.alias a) d (some v) ps e r =
    birth_details-accepts _ d.name (code d.datatype) d.timestamp d.datatype refl refl
      (known d.datatype) refl tt (rw e r)

added-Complete :
    {T : Type 0} (id : MetricId) (d : BirthMetricDetails T) (v : Option Value)
    (ps : Option Properties)
    → d.properties ≡ ps
    → Keyed ps
    → Complete (identify id (into_metric_value d v))
added-Complete id d v none e k = complete id d v none e tt
added-Complete id d v (some p) e k = complete id d v (some p) e (p, from_proto-to_proto p k)

abbrev AllComplete : List Metric → Type 0
AllComplete = All Complete

AllComplete-append :
    (ms : List Metric) (m : Metric) → AllComplete ms → Complete m → AllComplete (ms ++ m ∷ [])
AllComplete-append [] m h c = (c, tt)
AllComplete-append (x ∷ ms) m h c = (h.0, AllComplete-append ms m h.1 c)

collect-AllComplete :
    (ms : List Metric)
    → AllComplete ms
    → (ds : List (MetricBirthDetails × MetricDetails)) × (collect birth_details ms ≡ ok ds)
collect-AllComplete [] h = ([], refl)
collect-AllComplete (m ∷ ms) h =
    let r = collect-AllComplete ms h.1 in (h.0.0 ∷ r.0, rw (h.0.1, r.1) refl)

definition-Complete :
    (t : ℕ) (name : Text) (d : TemplateDefinition)
    → Complete (
        Metric.valued
          (record (fields Payload.new) {
            name = some name;
            datatype = some (code DataType.template);
            timestamp = some t;
          })
          (definition_to_value d))
unfolding birth_details details_from_metric Payload.new from_code
definition-Complete t name d = (_, refl)

abbrev pub Written : Registration → Type 0
Written r = Keyed (properties r)

module _ (W : World) where
  initialise_birth-AllComplete :
      (rs : List Registration) (b : BirthInitializer)
      → All (λ r. Keyed (properties r)) rs
      → AllComplete b.birth_metrics
      → AllComplete (initialise_birth W.hash rs b).birth_metrics
  unfolding initialise_birth
  initialise_birth-AllComplete [] b k h = h
  initialise_birth-AllComplete (r ∷ rs) b k h =
      initialise_birth-AllComplete rs (registered W.hash r b) k.1 (
        registered_cases W.hash (λ b'. AllComplete b'.birth_metrics) r b h
          (λ T d v e p f.
            AllComplete-append b.birth_metrics _ h
              (added-Complete _ d v (properties r) (sym p) k.0)))

  -- An application accepts it, with this `bdSeq` and the metrics.
  pub record IsAccepted (q : ℕ) (p : Payload) : Type 0 where
    pub birth : NBirth
    pub accepted : nbirth_from_payload p ≡ ok birth
    pub bdseq : birth.bdseq ≡ q

  -- The `bdSeq` is found, and all metrics are complete.
  abbrev Both : ℕ → List Metric → Type 0
  Both q ms = Reads q ms × AllComplete ms

  read-IsAccepted : (q t : ℕ) (p : Payload) → HasMetrics W (Both q) t p → IsAccepted q p
  unfolding get_metric_birth_details_from_birth_metrics
  read-IsAccepted q t p h =
      let ds = collect-AllComplete p.metrics h.metrics.1 in
      let b : NBirth = record { bdseq = q; timestamp = t; metrics_details = ds.0 } in
      record {
        birth = b;
        accepted = (nbirth_from_payload_steps p b).1 (h.seq, h.timestamp, h.metrics.0, ds.1);
        bdseq = refl;
      }

  first-Both : (q t : ℕ) → q < 256 → Both q (first_metrics W q t)
  unfolding plain
  first-Both q t l = (
    first-Reads W q t l,
    (
      added-Complete (MetricId.name Text.bdseq) _ _ none refl tt,
      (added-Complete (MetricId.name node_control_rebirth) _ _ none refl tt, tt),
    ),
  )

  -- The birth of an edge node, whose templates have distinct names that are not reserved, and whose
  -- metric manager registers property sets without a repeated key, is made without a panic, and an
  -- application accepts it: it reads the `bdSeq` of the node.
  pub generate_birth_payload-IsAccepted :
      (q : ℕ) (n : Node)
      → q < 256
      → Registrable n.template_registry
      → All Written (W.node_metrics n.core.calls)
      → Returns (IsAccepted q) (generate_birth_payload W q 0 n)
  generate_birth_payload-IsAccepted q n l h k =
      let t = W.timestamp n.core.calls in
      Returns-imp (generate_birth_payload W q 0 n) (λ p b. read-IsAccepted q t p b)
        (generate_birth_payload-HasMetrics W (Both q) q n
          (λ name d ms r.
            (Reads-append q ms _ r.0, AllComplete-append ms _ r.1 (definition-Complete t name d)))
          (λ b r. (
            initialise_birth-Reads W.hash q (W.node_metrics n.core.calls) b r.0,
            initialise_birth-AllComplete (W.node_metrics n.core.calls) b k r.1,
          ))
          h (first-Both q t l))

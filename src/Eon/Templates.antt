-- ===== src/Eon/Templates.antt =====
-- `TemplateRegistry` of srad-eon/src/node.rs.
use srad.Prelude.{
  ℕ, Bool, true, false, Option, none, some, not, ◌||◌, if◌then◌else◌, Result, ok, err, ◌>>◌, ◌>>=◌,
  list_eq, nat_eq, Assoc, lookup, insert, is_some, List, [], ◌∷◌,
}
use srad.Types.Text.{Text, node_control_rebirth, bdseq}
use srad.Types.DataType.{DataType, from_code}
use srad.Types.Payload.{Value, Metric, Metrics, nil, cons, template}
use srad.Types.Templates.{TemplateDefinition}

pub data TemplateRegistryError : Type 0 where
  invalid_name : TemplateRegistryError
  duplicate : TemplateRegistryError
  invalid_definition : TemplateRegistryError
  unregistered_metric : TemplateRegistryError

-- The registry's `HashMap`.
abbrev pub TemplateRegistry : Type 0
TemplateRegistry = Assoc Text TemplateDefinition

pub known_datatype : Option ℕ → Result TemplateRegistryError DataType
known_datatype none = err invalid_definition
known_datatype (some c) = elim (from_code c) [ some d ↦ ok d | none ↦ err invalid_definition ]

abbrev pub is_template : DataType → Bool
is_template DataType.template = true
is_template _ = false

-- The loop over the metrics; the first template that is registered ends it.
unfoldable pub check_template_metrics :
    TemplateRegistry → Metrics → Result TemplateRegistryError (Unit {0})
unfolding known_datatype
check_template_metrics r nil = ok tt
check_template_metrics r (cons (Metric.unvalued f) rest) = do
  d ← known_datatype f.datatype
  if not (is_template d) then check_template_metrics r rest else err invalid_definition
check_template_metrics r
      (cons (Metric.valued f (Value.template_value (template v ms ps none i))) rest) =
    do
      d ← known_datatype f.datatype
      if not (is_template d) then check_template_metrics r rest else err invalid_definition
check_template_metrics r
      (cons (Metric.valued f (Value.template_value (template v ms ps (some name) i))) rest) =
    do
      d ← known_datatype f.datatype
      if not (is_template d)
          then check_template_metrics r rest
          else if is_some (lookup name r)
          then ok tt
          else (check_template_metrics r ms >> check_template_metrics r rest)
check_template_metrics r (cons (Metric.valued f v) rest) = do
  d ← known_datatype f.datatype
  if not (is_template d) then check_template_metrics r rest else err invalid_definition

-- The type's name for its definition, and the definition, are the caller's.
unfoldable pub register :
    Text → TemplateDefinition → TemplateRegistry → Result TemplateRegistryError TemplateRegistry
unfolding check_template_metrics
register name definition r =
    if list_eq.beq name node_control_rebirth || list_eq.beq name bdseq
    then err invalid_name
    else if is_some (lookup name r)
    then err duplicate
    else check_template_metrics r definition.metrics >>= λ _. ok (insert name definition r)

unfoldable pub deregister : Text → TemplateRegistry → TemplateRegistry
deregister name [] = []
deregister name ((n, d) ∷ r) =
    let rest = deregister name r in if list_eq.beq n name then rest else (n, d) ∷ rest

unfoldable pub clear : TemplateRegistry → TemplateRegistry
clear r = []

-- What a metric manager does to the registry in `birth_update_template_registry`. A definition that
-- is refused leaves the registry as it was.
pub data RegistryChange : Type 0 where
  cleared : RegistryChange
  deregistered : Text → RegistryChange
  registered : Text → TemplateDefinition → RegistryChange

abbrev pub or_else :
    TemplateRegistry → Result TemplateRegistryError TemplateRegistry → TemplateRegistry
or_else r (ok r') = r'
or_else r (err e) = r

unfoldable pub change : RegistryChange → TemplateRegistry → TemplateRegistry
unfolding clear deregister register
change cleared r = clear r
change (deregistered name) r = deregister name r
change (registered name definition) r = or_else r (register name definition r)

unfoldable pub change_all : List RegistryChange → TemplateRegistry → TemplateRegistry
unfolding change
change_all [] r = r
change_all (c ∷ cs) r = change_all cs (change c r)

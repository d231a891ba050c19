-- ===== src/Types/Templates.antt =====
-- srad-types/src/template.rs: template definitions and instances, and their values.
pub mod RoundTrip
use srad.Prelude.{
  Bool, true, false, Option, none, some, List, ◌++◌, not, Result, ok, err, ◌>>◌, ◌>>=◌, guard,
  is_some, String,
}
use srad.Types.Text.{Text, text}
use srad.Types.Payload.{Value, Metrics, Parameter, Template, template}
use srad.Types.Arrays.{FromBytesError}

pub record TemplateDefinition : Type 0 where
  pub version : Option Text
  pub metrics : Metrics
  pub parameters : List Parameter

pub record TemplateInstance : Type 0 where
  pub template_ref : Text
  pub version : Option Text
  pub metrics : Metrics
  pub parameters : List Parameter

unfoldable pub definition_to_value : TemplateDefinition → Value
definition_to_value d =
    Value.template_value (template d.version d.metrics d.parameters none (some true))

unfoldable pub instance_to_value : TemplateInstance → Value
instance_to_value i =
    Value.template_value
      (template i.version i.metrics i.parameters (some i.template_ref) (some false))

pub data FromValueTypeError : Type 0 where
  array_decode_error : FromBytesError → FromValueTypeError
  invalid_variant_type : FromValueTypeError
  invalid_value : Text → FromValueTypeError

-- The errors name the rule of the protocol.
abbrev violates : String → FromValueTypeError
violates rule =
    invalid_value (text "Template payload violates tck-id-payloads-template-" ++ text rule)

abbrev unwrap_or : Bool → Option Bool → Bool
unwrap_or d none = d
unwrap_or d (some b) = b

unfoldable pub definition_from_value : Value → Result FromValueTypeError TemplateDefinition
definition_from_value
      (Value.template_value (template version metrics parameters template_ref is_definition)) =
    guard (not (is_some template_ref)) (violates "definition-ref")
    >> (guard (unwrap_or false is_definition) (violates "definition-is_definition")
        >> ok (record { version = version; metrics = metrics; parameters = parameters }))
definition_from_value _ = err invalid_variant_type

with_ref :
    Option Text
    → Option Text
    → Metrics
    → List Parameter
    → Result FromValueTypeError TemplateInstance
with_ref none version metrics parameters = err (violates "instance-ref")
with_ref (some r) version metrics parameters =
    ok (record { template_ref = r; version = version; metrics = metrics; parameters = parameters })

unfoldable pub instance_from_value : Value → Result FromValueTypeError TemplateInstance
unfolding with_ref
instance_from_value
      (Value.template_value (template version metrics parameters template_ref is_definition)) =
    guard (not (unwrap_or true is_definition)) (violates "instance-is_definition")
    >> with_ref template_ref version metrics parameters
instance_from_value _ = err invalid_variant_type

pub data TemplateValue : Type 0 where
  definition : TemplateDefinition → TemplateValue
  instance_of : TemplateInstance → TemplateValue

unfoldable pub template_from_value : Value → Result FromValueTypeError TemplateValue
unfolding definition_from_value instance_from_value
template_from_value (Value.template_value (template version metrics parameters template_ref none)) =
    err (invalid_value (text "Template field template_ref cannot be None"))
template_from_value
      (Value.template_value (template version metrics parameters template_ref (some true))) =
    definition_from_value
      (Value.template_value (template version metrics parameters template_ref (some true)))
    >>= λ d. ok (definition d)
template_from_value
      (Value.template_value (template version metrics parameters template_ref (some false))) =
    instance_from_value
      (Value.template_value (template version metrics parameters template_ref (some false)))
    >>= λ i. ok (instance_of i)
template_from_value _ = err invalid_variant_type

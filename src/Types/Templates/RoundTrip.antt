-- ===== src/Types/Templates/RoundTrip.antt =====
-- A template's definition or instance, as a value, is read back.
use srad.Prelude.{◌≡◌, refl, ok, ◌↔◌, arith}
use srad.Types.Payload.{Value}
use srad.Types.Templates.{
  TemplateValue, definition, instance_of, definition_to_value, instance_to_value,
  template_from_value, definition_from_value, instance_from_value,
}

-- What a template's value is.
abbrev pub written : TemplateValue → Value
unfolding definition_to_value instance_to_value
written (definition d) = definition_to_value d
written (instance_of i) = instance_to_value i

read-written : (t : TemplateValue) → template_from_value (written t) ≡ ok t
unfolding template_from_value definition_to_value instance_to_value definition_from_value
    instance_from_value
read-written (definition d) = refl
read-written (instance_of i) = refl

written-read : (v : Value) (t : TemplateValue) → template_from_value v ≡ ok t → v ≡ written t
unfolding template_from_value definition_to_value instance_to_value definition_from_value
    instance_from_value
written-read v t e = ground arith

-- A value is read as a template exactly when it is what the definition or the instance is written
-- as: every other is refused.
pub template_from_value_iff :
    (v : Value) (t : TemplateValue) → (template_from_value v ≡ ok t) ↔ (v ≡ written t)
template_from_value_iff v t = (written-read v t, λ e. rw e (read-written t))

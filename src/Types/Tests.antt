-- ===== src/Types/Tests.antt =====
-- Tests of the types, and their theorems on concrete values.
use srad.Prelude.{
  list_eq, nat_eq, Distinct, err, Result, length, ℕ, List, true, false, Bool, arith, ◌≡◌, ◌↔◌, refl,
  none, some, [], ◌∷◌, ok, lookup,
}
use srad.Types.Text.{text}
use srad.Types.DataType.{int32, boolean, code}
use srad.Types.Payload.{PropertyContent, nil, DataSet, DataSetContent}
use srad.Types.Templates.{
  TemplateValue, definition, template_from_value, FromValueTypeError, invalid_variant_type,
}
use srad.Types.DataSets.{
  Row, DataSetError, DataSetRow, row_length_mismatch, typed_from_data_set, typed_from_value,
  typed_to_value, read_rows, data_set_value_try_into, datatype_matches, int8_fits,
}
use srad.Types.DataSets.RoundTrip.{
  HasSchema, typed_from_data_set_iff, typed_from_value-typed_to_value,
}
use srad.Types.Templates.RoundTrip.{written, template_from_value_iff}
use srad.Types.Arrays.{vec_to_proto, proto_to_vec, string_vec_to_proto, proto_to_string_vec}
use srad.Types.Arrays.RoundTrip.{proto_to_vec-vec_to_proto, proto_to_string_vec-string_vec_to_proto}
use srad.Types.Booleans.{bool_vec_to_proto, proto_to_bool_vec, pack_byte_with_bool, read_bits}
use srad.Types.Booleans.RoundTrip.{proto_to_bool_vec-bool_vec_to_proto}
use srad.Types.Properties.{
  set_to_value, set_from_value, list_to_value, list_from_value, not_a_property_set,
  not_a_property_set_list, Properties, from_proto, to_proto,
}
use srad.Types.Properties.RoundTrip.{from_proto-to_proto, from_value-to_value}

-- A value, and a null value without a datatype.
abbrev two_properties : Properties
two_properties =
    (text "low", record { value = some (PropertyContent.int_value 7); datatype = some int32 })
    ∷ (text "high", record { value = none; datatype = none })
    ∷ []

from_proto-to_proto_example : from_proto (to_proto two_properties) ≡ ok two_properties
unfolding lookup
from_proto-to_proto_example = from_proto-to_proto two_properties (refl, (refl, tt))

proto_to_vec-vec_to_proto_example :
    proto_to_vec 2 (vec_to_proto 2 (258 ∷ 65535 ∷ [])) ≡ ok (258 ∷ 65535 ∷ [])
proto_to_vec-vec_to_proto_example =
    proto_to_vec-vec_to_proto 2 (258 ∷ 65535 ∷ []) (omega arith) (omega arith, (omega arith, tt))

-- A test of the source.
abbrev nine_bools : List Bool
nine_bools = true ∷ false ∷ true ∷ false ∷ true ∷ true ∷ true ∷ false ∷ true ∷ []

bools_test : bool_vec_to_proto nine_bools ≡ 9 ∷ 0 ∷ 0 ∷ 0 ∷ 174 ∷ 128 ∷ []
unfolding bool_vec_to_proto pack_byte_with_bool
bools_test = refl

-- A second byte where one is enough: its bits are in the array.
bools_beyond_test :
    proto_to_bool_vec (1 ∷ 0 ∷ 0 ∷ 0 ∷ 128 ∷ 128 ∷ [])
    ≡ some (ok (true ∷ false ∷ false ∷ false ∷ false ∷ false ∷ false ∷ false ∷ true ∷ []))
unfolding proto_to_bool_vec read_bits
bools_beyond_test = refl

abbrev eight_bools : List Bool
eight_bools = true ∷ true ∷ true ∷ true ∷ true ∷ true ∷ true ∷ true ∷ []

proto_to_bool_vec-bool_vec_to_proto_example :
    proto_to_bool_vec (bool_vec_to_proto eight_bools) ≡ some (ok [])
proto_to_bool_vec-bool_vec_to_proto_example =
    proto_to_bool_vec-bool_vec_to_proto eight_bools (omega arith)

abbrev ascii : List ℕ → Bool
ascii bytes = true

proto_to_string_vec-string_vec_to_proto_example :
    proto_to_string_vec ascii (string_vec_to_proto (text "a" ∷ [] ∷ [])) ≡ ok (text "a" ∷ [] ∷ [])
proto_to_string_vec-string_vec_to_proto_example =
    proto_to_string_vec-string_vec_to_proto ascii (text "a" ∷ [] ∷ [])
      (((refl, tt), refl), ((tt, refl), tt))

two_properties-Distinct : Distinct two_properties
unfolding lookup
two_properties-Distinct = (refl, (refl, tt))

from_value-to_value_example :
    (set_from_value (set_to_value two_properties) ≡ ok two_properties)
    × (list_from_value (list_to_value ([] ∷ two_properties ∷ [])) ≡ ok ([] ∷ two_properties ∷ []))
    × (set_from_value (list_to_value ([] ∷ two_properties ∷ [])) ≡ err not_a_property_set)
    × (list_from_value (set_to_value two_properties) ≡ err not_a_property_set_list)
from_value-to_value_example =
    from_value-to_value two_properties ([] ∷ two_properties ∷ []) two_properties-Distinct
      (tt, (two_properties-Distinct, tt))

abbrev empty_definition : TemplateValue
empty_definition =
    definition (record { version = some (text "1.0"); metrics = nil; parameters = [] })

template_from_value_iff_example :
    (template_from_value (written empty_definition) ≡ ok empty_definition)
    ↔ (written empty_definition ≡ written empty_definition)
template_from_value_iff_example =
    template_from_value_iff (written empty_definition) empty_definition

abbrev to_bool : DataSetContent → Result FromValueTypeError Bool
to_bool (DataSetContent.boolean_value b) = ok b
to_bool _ = err invalid_variant_type

-- Rows of one column, of booleans.
abbrev read_switch : Row → Result DataSetError Bool
read_switch (e ∷ []) = data_set_value_try_into to_bool e boolean 0
read_switch r = err (row_length_mismatch 1 (length r))

abbrev switches : DataSetRow Bool
switches = record {
  columns = record { name = text "on"; datatype = boolean } ∷ [];
  into_row = λ b. some (DataSetContent.boolean_value b) ∷ [];
  try_from_row = read_switch;
}

switches_read : (b : Bool) → switches.try_from_row (switches.into_row b) ≡ ok b
unfolding data_set_value_try_into datatype_matches
switches_read b = refl

typed_from_value-typed_to_value_example :
    typed_from_value switches (typed_to_value switches (true ∷ false ∷ [])) ≡ ok (true ∷ false ∷ [])
typed_from_value-typed_to_value_example =
    typed_from_value-typed_to_value switches (true ∷ false ∷ []) switches_read

-- A data set of another column.
abbrev switched_off : DataSet
switched_off = record {
  num_of_columns = some 1;
  columns = text "off" ∷ [];
  types = code boolean ∷ [];
  rows = [];
}

typed_from_data_set_iff_example :
    (typed_from_data_set switches switched_off ≡ ok [])
    ↔ (HasSchema switches.columns switched_off × (read_rows switches [] ≡ ok []))
typed_from_data_set_iff_example = typed_from_data_set_iff switches switched_off []

-- 2 ^ 32 - 128 is the Int8 -128.
int8_fits_test : (int8_fits 300 ≡ false) × (int8_fits 4294967168 ≡ true)
unfolding int8_fits
int8_fits_test = (refl, refl)

-- ===== src/Types/Properties.antt =====
-- srad-types/src/property_set.rs: property sets, read from and written to their protobuf form.
-- A `HashMap` is an association list; the order in which it is written is that of the list.
pub mod RoundTrip
use srad.Prelude.{
  ℕ, true, false, Option, none, some, List, [], ◌∷◌, ◌==◌, if◌then◌else◌, Result, ok, err, ◌>>=◌,
  map_err, Assoc, insert, length, list_eq, nat_eq,
}
use srad.Types.Text.{Text, quality}
use srad.Types.DataType.{DataType, from_code, code, int32}
use srad.Types.Payload
use srad.Types.Payload.{
  PropertyContent, PropertySet, property_set, PropertySetList, no_sets, set_and, PropertyValues,
  nil, cons,
}

-- The source's own `PropertyValue` and `PropertySet`.
pub record PropertyValue : Type 0 where
  pub value : Option PropertyContent
  pub datatype : Option DataType

abbrev pub Properties : Type 0
Properties = Assoc Text PropertyValue

pub data PropertyValueError : Type 0 where
  invalid_null_value : PropertyValueError
  missing_value : PropertyValueError
  invalid_data_type : ℕ → PropertyValueError

pub data PropertySetError : Type 0 where
  reserved_quality : PropertySetError
  key_value_count_mismatch : ℕ → ℕ → PropertySetError
  invalid_property_value : PropertyValueError → PropertySetError
  not_a_property_set : PropertySetError
  not_a_property_set_list : PropertySetError

abbrev type_code : Option DataType → Option ℕ
type_code none = none
type_code (some d) = some (code d)

unfoldable pub value_to_proto : PropertyValue → Payload.PropertyValue
value_to_proto v = elim v.value [
  | some c ↦ Payload.PropertyValue.valued (type_code v.datatype) none c
  | none ↦ Payload.PropertyValue.unvalued (type_code v.datatype) (some true)
]

abbrev known_type : ℕ → Option DataType → Result PropertyValueError (Option DataType)
known_type v none = err (invalid_data_type v)
known_type v (some d) = ok (some d)

datatype_from : Option ℕ → Result PropertyValueError (Option DataType)
datatype_from none = ok none
datatype_from (some v) = known_type v (from_code v)

unfoldable pub value_from_proto : Payload.PropertyValue → Result PropertyValueError PropertyValue
unfolding datatype_from
value_from_proto (Payload.PropertyValue.valued ty is_null c) = do
  d ← datatype_from ty
  ok (record { value = some c; datatype = d })
value_from_proto (Payload.PropertyValue.unvalued ty (some true)) = do
  d ← datatype_from ty
  ok (record { value = none; datatype = d })
value_from_proto (Payload.PropertyValue.unvalued ty (some false)) = err invalid_null_value
value_from_proto (Payload.PropertyValue.unvalued ty none) = err missing_value

pub new_with_quality : PropertyContent → Properties
new_with_quality q = insert quality (record { value = some q; datatype = some int32 }) []

-- `insert`, with the value in its protobuf form and the datatype of its Rust type.
pub insert_property :
    Text → Option PropertyContent → DataType → Properties → Result PropertySetError Properties
insert_property k v d m =
    if list_eq.beq k quality
    then err reserved_quality
    else ok (insert k (record { value = v; datatype = some d }) m)

abbrev pub count_values : PropertyValues → ℕ
count_values nil = 0
count_values (cons v vs) = Prim.Native.Nat.suc (count_values vs)

unfoldable pub values_to_proto : Properties → PropertyValues
values_to_proto [] = nil
values_to_proto ((k, v) ∷ m) = cons (value_to_proto v) (values_to_proto m)

abbrev pub keys : Properties → List Text
keys [] = []
keys ((k, v) ∷ m) = k ∷ keys m

unfoldable pub to_proto : Properties → PropertySet
to_proto m = property_set (keys m) (values_to_proto m)

-- The loop over the keys and values, zipped.
unfoldable pub insert_all :
    List Text → PropertyValues → Properties → Result PropertySetError Properties
insert_all [] vs m = ok m
insert_all (k ∷ ks) nil m = ok m
insert_all (k ∷ ks) (cons v vs) m =
    map_err invalid_property_value (value_from_proto v) >>= λ w. insert_all ks vs (insert k w m)

unfoldable pub from_proto : PropertySet → Result PropertySetError Properties
from_proto (property_set ks vs) =
    if length ks == count_values vs
    then insert_all ks vs []
    else err (key_value_count_mismatch (length ks) (count_values vs))

unfoldable pub list_to_proto : List Properties → PropertySetList
list_to_proto [] = no_sets
list_to_proto (m ∷ ms) = set_and (to_proto m) (list_to_proto ms)

unfoldable pub list_from_proto : PropertySetList → Result PropertySetError (List Properties)
list_from_proto no_sets = ok []
list_from_proto (set_and p ps) = do m ← from_proto p; ms ← list_from_proto ps; ok (m ∷ ms)

-- The conversions to and from `PropertyValueValue`, which holds the protobuf form of a value.
unfoldable pub set_to_value : Properties → PropertyContent
set_to_value m = PropertyContent.propertyset_value (to_proto m)

unfoldable pub set_from_value : PropertyContent → Result PropertySetError Properties
set_from_value (PropertyContent.propertyset_value p) = from_proto p
set_from_value _ = err not_a_property_set

unfoldable pub list_to_value : List Properties → PropertyContent
list_to_value ms = PropertyContent.propertysets_value (list_to_proto ms)

unfoldable pub list_from_value : PropertyContent → Result PropertySetError (List Properties)
list_from_value (PropertyContent.propertysets_value ps) = list_from_proto ps
list_from_value _ = err not_a_property_set_list

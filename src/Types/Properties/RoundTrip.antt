-- ===== src/Types/Properties/RoundTrip.antt =====
-- A property set is read back from its protobuf form.
use srad.Prelude.{
  List, All, err, suc, ◌≡◌, refl, ap, Option, none, some, [], ◌∷◌, ◌++◌, ok, ◌∙◌, ==_iff, Distinct,
  Distinct-append, insert-append, length, list_eq, nat_eq,
}
use mathlib.Core.List.{append-nil, append_assoc}
use srad.Types.DataType.{DataType, from_code-code}
use srad.Types.Payload.{PropertyContent}
use srad.Types.Properties.{
  list_to_proto, list_from_proto, set_to_value, set_from_value, list_to_value, list_from_value,
  not_a_property_set, not_a_property_set_list, Properties, PropertyValue, value_to_proto,
  value_from_proto, values_to_proto, keys, to_proto, from_proto, insert_all, count_values,
}

value_round_trip :
    (x : Option PropertyContent) (d : Option DataType)
    → let v : PropertyValue = record { value = x; datatype = d } in
      value_from_proto (value_to_proto v) ≡ ok v
unfolding value_from_proto value_to_proto
value_round_trip none none = refl
value_round_trip none (some d) = rw from_code-code
value_round_trip (some x) none = refl
value_round_trip (some x) (some d) = rw from_code-code

length-keys : (m : Properties) → length (keys m) ≡ count_values (values_to_proto m)
unfolding values_to_proto
length-keys [] = refl
length-keys ((k, v) ∷ m) = ap suc (length-keys m)

insert_all-append :
    (acc m : Properties)
    → Distinct (acc ++ m)
    → insert_all (keys m) (values_to_proto m) acc ≡ ok (acc ++ m)
unfolding insert_all values_to_proto
insert_all-append acc [] h = rw append-nil
insert_all-append acc ((k, v) ∷ m) h =
    rw (value_round_trip v.value v.datatype, insert-append k v acc (Distinct-append k v acc m h))
      (insert_all-append (acc ++ (k, v) ∷ []) m (rw append_assoc h)
        ∙ ap ok (append_assoc acc ((k, v) ∷ []) m))

-- A property set without a repeated key, written to its protobuf form and read from it, is what it
-- was: every value, null or not, and every datatype.
pub from_proto-to_proto : (m : Properties) → Distinct m → from_proto (to_proto m) ≡ ok m
unfolding from_proto to_proto
from_proto-to_proto m h =
    rw ((==_iff (length (keys m)) _).1 (length-keys m)) (insert_all-append [] m h)

list_from_proto-list_to_proto :
    (ms : List Properties) → All Distinct ms → list_from_proto (list_to_proto ms) ≡ ok ms
unfolding list_from_proto list_to_proto
list_from_proto-list_to_proto [] h = refl
list_from_proto-list_to_proto (m ∷ ms) h =
    rw (from_proto-to_proto m h.0, list_from_proto-list_to_proto ms h.1) refl

-- A property set without a repeated key, and a list of such sets, put into a property's value and
-- taken out of it, are what they were, whatever sets their own values hold; and neither is read
-- from the value of the other.
pub from_value-to_value :
    (m : Properties) (ms : List Properties)
    → Distinct m
    → All Distinct ms
    → (set_from_value (set_to_value m) ≡ ok m)
      × (list_from_value (list_to_value ms) ≡ ok ms)
      × (set_from_value (list_to_value ms) ≡ err not_a_property_set)
      × (list_from_value (set_to_value m) ≡ err not_a_property_set_list)
unfolding set_from_value set_to_value list_from_value list_to_value
from_value-to_value m ms h hs =
    (from_proto-to_proto m h, list_from_proto-list_to_proto ms hs, refl, refl)

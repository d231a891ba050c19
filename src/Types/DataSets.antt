-- ===== src/Types/DataSets.antt =====
-- srad-types/src/dataset.rs: data sets, and the typed rows that are written to them and read from
-- them. A `u32` that holds a signed number is its bit pattern.
pub mod RoundTrip
use srad.Prelude.{
  ℕ, suc, ◌+◌, ◌-◌, ◌%◌, ◌^◌, Bool, true, false, Option, none, some, List, [], ◌∷◌, ◌++◌, ◌==◌,
  ◌||◌, if◌then◌else◌, Result, ok, err, ◌>>=◌, ◌>>◌, guard, ok_or, map_err, map, length, ltb, leb,
  list_eq, nat_eq,
}
use srad.Types.Text.{Text}
use srad.Types.Payload.{DataSet, DataSetContent, Value}
use srad.Types.DataType.{
  DataType, code, int8, int16, int32, int64, uint8, uint16, uint32, uint64, float, double, boolean,
  string, date_time, text, uuid,
}
use srad.Types.Templates.{FromValueTypeError, invalid_variant_type}

pub record DataSetColumn : Type 0 where
  pub name : Text
  pub datatype : DataType

-- The numbers are the index, what is expected and what was found, in the source's order.
pub data DataSetError : Type 0 where
  column_count_mismatch : ℕ → ℕ → DataSetError
  types_count_mismatch : ℕ → ℕ → DataSetError
  column_type_mismatch : ℕ → DataType → ℕ → DataSetError
  column_name_mismatch : ℕ → Text → Text → DataSetError
  row_length_mismatch : ℕ → ℕ → DataSetError
  element_type_mismatch : ℕ → DataType → DataSetError
  element_value_missing : ℕ → DataSetError
  invalid_metric_value : DataSetError
  invalid_element_value : FromValueTypeError → DataSetError

abbrev pub Row : Type 0
Row = List (Option DataSetContent)

-- The trait, for rows of the type `R`.
pub record DataSetRow (R : Type 0) : Type 0 where
  pub columns : List DataSetColumn
  pub into_row : R → Row
  pub try_from_row : Row → Result DataSetError R

abbrev pub empty : DataSet
empty = record { num_of_columns = none; columns = []; types = []; rows = [] }

abbrev pub names : List DataSetColumn → List Text
names [] = []
names (c ∷ cs) = c.name ∷ names cs

abbrev pub datatypes : List DataSetColumn → List DataType
datatypes [] = []
datatypes (c ∷ cs) = c.datatype ∷ datatypes cs

unfoldable pub init : List Text → List DataType → DataSet → DataSet
init columns types ds = record ds {
  num_of_columns = some (length columns);
  columns = columns;
  types = map code types;
}

unfoldable pub add_row : Row → DataSet → DataSet
add_row row ds = record ds { rows = ds.rows ++ row ∷ [] }

unfoldable pub add_row_values : List DataSetContent → DataSet → DataSet
unfolding add_row
add_row_values elements ds = add_row (map some elements) ds

unfoldable pub data_set_to_value : DataSet → Value
data_set_to_value ds = Value.dataset_value ds

unfoldable pub data_set_from_value : Value → Result FromValueTypeError DataSet
data_set_from_value (Value.dataset_value ds) = ok ds
data_set_from_value _ = err invalid_variant_type

-- The loops of the checks, from the column `index` on; `zip` ends with the shorter list.
unfoldable pub check_names : ℕ → List Text → List DataSetColumn → Result DataSetError (Unit {0})
check_names index (a ∷ actual) (c ∷ cs) =
    guard (list_eq.beq a c.name) (column_name_mismatch index c.name a)
    >> check_names (suc index) actual cs
check_names index _ _ = ok tt

unfoldable pub check_types : ℕ → List ℕ → List DataSetColumn → Result DataSetError (Unit {0})
check_types index (a ∷ actual) (c ∷ cs) =
    guard (a == code c.datatype) (column_type_mismatch index c.datatype a)
    >> check_types (suc index) actual cs
check_types index _ _ = ok tt

abbrev pub unwrap_or_default : Option ℕ → ℕ
unwrap_or_default none = 0
unwrap_or_default (some n) = n

-- The checks of the columns, before any row is read.
unfoldable pub check_schema : List DataSetColumn → DataSet → Result DataSetError (Unit {0})
unfolding check_names check_types
check_schema cs ds =
    guard (unwrap_or_default ds.num_of_columns == length cs)
      (column_count_mismatch (length cs) (unwrap_or_default ds.num_of_columns))
    >> (guard (length ds.columns == length cs)
          (column_count_mismatch (length cs) (length ds.columns))
        >> (guard (length ds.types == length cs)
              (types_count_mismatch (length cs) (length ds.types))
            >> (check_names 0 ds.columns cs >> check_types 0 ds.types cs)))

module _ {R : Type 0} (row : DataSetRow R) where
  abbrev pub add_rows : List R → DataSet → DataSet
  unfolding add_row
  add_rows [] ds = ds
  add_rows (r ∷ rs) ds = add_rows rs (add_row (row.into_row r) ds)

  unfoldable pub into_data_set : List R → DataSet
  unfolding init
  into_data_set rows = add_rows rows (init (names row.columns) (datatypes row.columns) empty)

  unfoldable pub read_rows : List Row → Result DataSetError (List R)
  read_rows [] = ok []
  read_rows (r ∷ rs) = row.try_from_row r >>= λ x. (read_rows rs >>= λ xs. ok (x ∷ xs))

  unfoldable pub typed_from_data_set : DataSet → Result DataSetError (List R)
  unfolding check_schema read_rows
  typed_from_data_set ds = check_schema row.columns ds >> read_rows ds.rows

  unfoldable pub typed_to_value : List R → Value
  unfolding into_data_set data_set_to_value
  typed_to_value rows = data_set_to_value (into_data_set rows)

  unfoldable pub typed_from_value : Value → Result DataSetError (List R)
  unfolding typed_from_data_set data_set_from_value
  typed_from_value v =
      map_err (λ _. invalid_metric_value) (data_set_from_value v) >>= λ ds. typed_from_data_set ds

abbrev pub sign_extend : ℕ → ℕ → ℕ
sign_extend w v = if ltb v (2 ^ (w - 1)) then v else v + 2 ^ 32 - 2 ^ w

unfoldable pub int8_fits : ℕ → Bool
int8_fits v = v == v % 2 ^ 8 || v == sign_extend 8 (v % 2 ^ 8)

unfoldable pub int16_fits : ℕ → Bool
int16_fits v = v == v % 2 ^ 16 || v == sign_extend 16 (v % 2 ^ 16)

unfoldable pub datatype_matches : DataType → DataSetContent → Bool
unfolding int8_fits int16_fits
datatype_matches int8 (DataSetContent.int_value v) = int8_fits v
datatype_matches int16 (DataSetContent.int_value v) = int16_fits v
datatype_matches int32 (DataSetContent.int_value v) = true
datatype_matches uint8 (DataSetContent.int_value v) = leb v 255
datatype_matches uint16 (DataSetContent.int_value v) = leb v 65535
datatype_matches uint32 (DataSetContent.int_value v) = true
datatype_matches int64 (DataSetContent.long_value v) = true
datatype_matches uint64 (DataSetContent.long_value v) = true
datatype_matches date_time (DataSetContent.long_value v) = true
datatype_matches float (DataSetContent.float_value v) = true
datatype_matches double (DataSetContent.double_value v) = true
datatype_matches boolean (DataSetContent.boolean_value v) = true
datatype_matches string (DataSetContent.string_value v) = true
datatype_matches text (DataSetContent.string_value v) = true
datatype_matches uuid (DataSetContent.string_value v) = true
datatype_matches _ _ = false

-- An element of a row, by its type's conversion.
module _ {T : Type 0} (try_from : DataSetContent → Result FromValueTypeError T) where
  abbrev pub convert : DataType → ℕ → DataSetContent → Result DataSetError T
  unfolding datatype_matches
  convert expected index v =
      guard (datatype_matches expected v) (element_type_mismatch index expected)
      >> map_err invalid_element_value (try_from v)

  unfoldable pub data_set_value_try_into :
      Option DataSetContent → DataType → ℕ → Result DataSetError T
  data_set_value_try_into element expected index =
      ok_or element (element_value_missing index) >>= λ v. convert expected index v

  unfoldable pub data_set_value_try_into_option :
      Option DataSetContent → DataType → ℕ → Result DataSetError (Option T)
  data_set_value_try_into_option none expected index = ok none
  data_set_value_try_into_option (some v) expected index =
      convert expected index v >>= λ x. ok (some x)

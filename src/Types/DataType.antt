-- ===== src/Types/DataType.antt =====
-- `DataType` of srad-types/src/generated/sparkplug_payload.rs and `TryFrom<u32>` of
-- srad-types/src/payload.rs.
use srad.Prelude.{ℕ, ◌<◌, ◌≡◌, refl, ◌↔◌, Option, none, some, ◌==◌, if◌then◌else◌, arith}

pub data DataType : Type 0 where
  unknown : DataType
  int8 : DataType
  int16 : DataType
  int32 : DataType
  int64 : DataType
  uint8 : DataType
  uint16 : DataType
  uint32 : DataType
  uint64 : DataType
  float : DataType
  double : DataType
  boolean : DataType
  string : DataType
  date_time : DataType
  text : DataType
  uuid : DataType
  data_set : DataType
  bytes : DataType
  file : DataType
  template : DataType
  property_set : DataType
  property_set_list : DataType
  int8_array : DataType
  int16_array : DataType
  int32_array : DataType
  int64_array : DataType
  uint8_array : DataType
  uint16_array : DataType
  uint32_array : DataType
  uint64_array : DataType
  float_array : DataType
  double_array : DataType
  boolean_array : DataType
  string_array : DataType
  date_time_array : DataType

-- `datatype as u32`
unfoldable pub code : DataType → ℕ
code unknown = 0
code int8 = 1
code int16 = 2
code int32 = 3
code int64 = 4
code uint8 = 5
code uint16 = 6
code uint32 = 7
code uint64 = 8
code float = 9
code double = 10
code boolean = 11
code string = 12
code date_time = 13
code text = 14
code uuid = 15
code data_set = 16
code bytes = 17
code file = 18
code template = 19
code property_set = 20
code property_set_list = 21
code int8_array = 22
code int16_array = 23
code int32_array = 24
code int64_array = 25
code uint8_array = 26
code uint16_array = 27
code uint32_array = 28
code uint64_array = 29
code float_array = 30
code double_array = 31
code boolean_array = 32
code string_array = 33
code date_time_array = 34

-- `none` is `DataTypeError::UnknownValue`.
unfoldable pub from_code : ℕ → Option DataType
unfolding code
from_code v =
    if v == code unknown
    then some unknown
    else if v == code int8
    then some int8
    else if v == code int16
    then some int16
    else if v == code int32
    then some int32
    else if v == code int64
    then some int64
    else if v == code uint8
    then some uint8
    else if v == code uint16
    then some uint16
    else if v == code uint32
    then some uint32
    else if v == code uint64
    then some uint64
    else if v == code float
    then some float
    else if v == code double
    then some double
    else if v == code boolean
    then some boolean
    else if v == code string
    then some string
    else if v == code date_time
    then some date_time
    else if v == code text
    then some text
    else if v == code uuid
    then some uuid
    else if v == code data_set
    then some data_set
    else if v == code bytes
    then some bytes
    else if v == code file
    then some file
    else if v == code template
    then some template
    else if v == code property_set
    then some property_set
    else if v == code property_set_list
    then some property_set_list
    else if v == code int8_array
    then some int8_array
    else if v == code int16_array
    then some int16_array
    else if v == code int32_array
    then some int32_array
    else if v == code int64_array
    then some int64_array
    else if v == code uint8_array
    then some uint8_array
    else if v == code uint16_array
    then some uint16_array
    else if v == code uint32_array
    then some uint32_array
    else if v == code uint64_array
    then some uint64_array
    else if v == code float_array
    then some float_array
    else if v == code double_array
    then some double_array
    else if v == code boolean_array
    then some boolean_array
    else if v == code string_array
    then some string_array
    else if v == code date_time_array
    then some date_time_array
    else none

-- Every datatype is read back from its number.
pub from_code-code : (d : DataType) → from_code (code d) ≡ some d
unfolding from_code
from_code-code unknown = refl
from_code-code int8 = refl
from_code-code int16 = refl
from_code-code int32 = refl
from_code-code int64 = refl
from_code-code uint8 = refl
from_code-code uint16 = refl
from_code-code uint32 = refl
from_code-code uint64 = refl
from_code-code float = refl
from_code-code double = refl
from_code-code boolean = refl
from_code-code string = refl
from_code-code date_time = refl
from_code-code text = refl
from_code-code uuid = refl
from_code-code data_set = refl
from_code-code bytes = refl
from_code-code file = refl
from_code-code template = refl
from_code-code property_set = refl
from_code-code property_set_list = refl
from_code-code int8_array = refl
from_code-code int16_array = refl
from_code-code int32_array = refl
from_code-code int64_array = refl
from_code-code uint8_array = refl
from_code-code uint16_array = refl
from_code-code uint32_array = refl
from_code-code uint64_array = refl
from_code-code float_array = refl
from_code-code double_array = refl
from_code-code boolean_array = refl
from_code-code string_array = refl
from_code-code date_time_array = refl

code-lt : (d : DataType) → code d < 35
unfolding code
code-lt unknown = omega arith
code-lt int8 = omega arith
code-lt int16 = omega arith
code-lt int32 = omega arith
code-lt int64 = omega arith
code-lt uint8 = omega arith
code-lt uint16 = omega arith
code-lt uint32 = omega arith
code-lt uint64 = omega arith
code-lt float = omega arith
code-lt double = omega arith
code-lt boolean = omega arith
code-lt string = omega arith
code-lt date_time = omega arith
code-lt text = omega arith
code-lt uuid = omega arith
code-lt data_set = omega arith
code-lt bytes = omega arith
code-lt file = omega arith
code-lt template = omega arith
code-lt property_set = omega arith
code-lt property_set_list = omega arith
code-lt int8_array = omega arith
code-lt int16_array = omega arith
code-lt int32_array = omega arith
code-lt int64_array = omega arith
code-lt uint8_array = omega arith
code-lt uint16_array = omega arith
code-lt uint32_array = omega arith
code-lt uint64_array = omega arith
code-lt float_array = omega arith
code-lt double_array = omega arith
code-lt boolean_array = omega arith
code-lt string_array = omega arith
code-lt date_time_array = omega arith

-- A number above the last one is unknown.
from_code_above : (v : ℕ) → 34 < v → from_code v ≡ none
unfolding from_code
from_code_above v h = ground arith

from_code_sound : (v : ℕ) (d : DataType) → from_code v ≡ some d → v ≡ code d
unfolding from_code
from_code_sound v d h = ground arith

-- A number is read as a datatype exactly when it is the datatype's number; any other is refused.
pub from_code_iff : (v : ℕ) (d : DataType) → (from_code v ≡ some d) ↔ (v ≡ code d)
from_code_iff v d = (from_code_sound v d, λ e. rw e (from_code-code d))

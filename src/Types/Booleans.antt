-- ===== src/Types/Booleans.antt =====
-- srad-types/src/value.rs: arrays of booleans in a metric's bytes, eight to a byte, the first in its
-- highest bit, behind their number.
pub mod RoundTrip
use srad.Prelude.{
  ℕ, zero, suc, ◌+◌, ◌-◌, ◌*◌, ◌/◌, ◌%◌, ◌^◌, Bool, true, false, Option, none, some, List, [], ◌∷◌,
  ◌++◌, ◌==◌, if◌then◌else◌, Result, ok, err, length, ltb, map,
}
use Prim.Native.Nat.{bit_or, bit_and}
use srad.Types.Arrays.{
  FromBytesError, invalid_size, invalid_format, to_le_bytes, from_le_bytes, take, drop,
  first_chunks,
}

-- The methods of Rust's numbers and slices that the source uses.
abbrev pub div_ceil : ℕ → ℕ → ℕ
div_ceil a b = (a + b - 1) / b

-- The last chunk may be shorter.
abbrev pub chunks {ℓ} : {A : Type ℓ} → ℕ → List A → List (List A)
chunks size xs = first_chunks (div_ceil (length xs) size) size xs

abbrev pub get_elem? {ℓ} : {A : Type ℓ} → List A → ℕ → Option A
get_elem? [] n = none
get_elem? (x ∷ xs) zero = some x
get_elem? (x ∷ xs) (suc n) = get_elem? xs n

abbrev pub bit_of : Bool → ℕ
bit_of true = 1
bit_of false = 0

-- The fold, from the place `i` on.
abbrev pub pack_from : ℕ → ℕ → List Bool → ℕ
pack_from i acc [] = acc
pack_from i acc (b ∷ bs) = pack_from (suc i) (bit_or acc (bit_of b * 2 ^ (7 - i) % 2 ^ 8)) bs

unfoldable pub pack_byte_with_bool : List Bool → ℕ
pack_byte_with_bool bools = pack_from 0 0 bools

unfoldable pub bool_vec_to_proto : List Bool → List ℕ
bool_vec_to_proto vec =
    to_le_bytes 4 (length vec % 2 ^ 32) ++ map pack_byte_with_bool (chunks 8 vec)

-- The booleans of `count` bits of a byte, from the place `i` on.
abbrev pub bits_from : ℕ → ℕ → ℕ → List Bool
bits_from zero i b = []
bits_from (suc count) i b = (bit_and (b / 2 ^ (7 - i)) 1 == 1) ∷ bits_from count (suc i) b

abbrev pub all_bits : List ℕ → List Bool
all_bits [] = []
all_bits (b ∷ bs) = bits_from 8 0 b ++ all_bits bs

-- `none` is the panic on an index that is out of range; no byte is read for no bits.
abbrev pub last_bits : ℕ → Option ℕ → Option (List Bool)
last_bits zero b = some []
last_bits (suc count) none = none
last_bits (suc count) (some b) = some (bits_from (suc count) 0 b)

abbrev pub push_all : List Bool → Option (List Bool) → Option (List Bool)
push_all bs none = none
push_all bs (some cs) = some (bs ++ cs)

-- The two loops, on the bytes after the count.
unfoldable pub read_bits : ℕ → ℕ → List ℕ → Option (List Bool)
read_bits bool_count bool_bytes bools_data =
    push_all (all_bits (take (bool_bytes - 1) bools_data))
      (last_bits (bool_count % 8) (get_elem? bools_data (bool_bytes - 1)))

abbrev pub returned : Option (List Bool) → Option (Result FromBytesError (List Bool))
returned none = none
returned (some bs) = some (ok bs)

-- `none` is a panic.
unfoldable pub proto_to_bool_vec : List ℕ → Option (Result FromBytesError (List Bool))
unfolding read_bits
proto_to_bool_vec bytes =
    if ltb (length bytes) 4
    then some (err invalid_size)
    else let bool_count = from_le_bytes (take 4 bytes) in
      if bool_count == 0
      then some (ok [])
      else if ltb (length bytes) (4 + div_ceil bool_count 8)
      then some (err invalid_format)
      else returned (read_bits bool_count (length bytes - 4) (drop 4 bytes))

-- ===== src/Types/Arrays.antt =====
-- srad-types/src/value.rs: arrays of numbers and of strings in a metric's bytes.
-- A number of `size` bytes is its bit pattern, so the conversions of signed numbers, floats and
-- `DateTime` are those of the unsigned numbers of the same size.
pub mod RoundTrip
pub mod Slices
use srad.Prelude.{
  ℕ, zero, suc, ◌+◌, ◌*◌, ◌/◌, ◌%◌, Bool, List, [], ◌∷◌, ◌++◌, ◌==◌, if◌then◌else◌, Result, ok, err,
  ◌>>=◌, length, split,
}
use srad.Types.Text.{Text}

pub data FromBytesError : Type 0 where
  invalid_format : FromBytesError
  invalid_size : FromBytesError
  bad_string_element : FromBytesError

-- The methods of Rust's numbers and slices that the source uses.
abbrev pub to_le_bytes : ℕ → ℕ → List ℕ
to_le_bytes zero x = []
to_le_bytes (suc size) x = x % 256 ∷ to_le_bytes size (x / 256)

abbrev pub from_le_bytes : List ℕ → ℕ
from_le_bytes [] = 0
from_le_bytes (b ∷ bs) = b + 256 * from_le_bytes bs

module _ {ℓ} {A : Type ℓ} where
  abbrev pub take : ℕ → List A → List A
  take zero xs = []
  take (suc n) [] = []
  take (suc n) (x ∷ xs) = x ∷ take n xs

  abbrev pub drop : ℕ → List A → List A
  drop zero xs = xs
  drop (suc n) [] = []
  drop (suc n) (x ∷ xs) = drop n xs

  -- The first `count` chunks of `size` elements.
  abbrev pub first_chunks : ℕ → ℕ → List A → List (List A)
  first_chunks zero size xs = []
  first_chunks (suc count) size xs = take size xs ∷ first_chunks count size (drop size xs)

abbrev pub map_from : List (List ℕ) → List ℕ
map_from [] = []
map_from (c ∷ cs) = from_le_bytes c ∷ map_from cs

-- `define_array_proto_conversions!`
unfoldable pub vec_to_proto : ℕ → List ℕ → List ℕ
vec_to_proto size [] = []
vec_to_proto size (x ∷ xs) = to_le_bytes size x ++ vec_to_proto size xs

unfoldable pub proto_to_vec : ℕ → List ℕ → Result FromBytesError (List ℕ)
proto_to_vec size bytes =
    if length bytes % size == 0
    then ok (map_from (first_chunks (length bytes / size) size bytes))
    else err invalid_format

unfoldable pub string_vec_to_proto : List Text → List ℕ
string_vec_to_proto [] = []
string_vec_to_proto (s ∷ ss) = s ++ 0 ∷ string_vec_to_proto ss

abbrev pub last_is_zero : ℕ → List ℕ → Bool
last_is_zero b [] = b == 0
last_is_zero b (c ∷ bs) = last_is_zero c bs

-- `String::from_utf8` refuses what `is_utf8` refuses.
module _ (is_utf8 : List ℕ → Bool) where
  -- The loop over the parts, which ends before the last one.
  abbrev pub strings : List Text → Result FromBytesError (List Text)
  strings [] = ok []
  strings (p ∷ []) = ok []
  strings (p ∷ q ∷ ps) =
      if is_utf8 p then (strings (q ∷ ps) >>= λ rest. ok (p ∷ rest)) else err bad_string_element

  unfoldable pub proto_to_string_vec : List ℕ → Result FromBytesError (List Text)
  proto_to_string_vec [] = ok []
  proto_to_string_vec (b ∷ bs) =
      if last_is_zero b bs then strings (split 0 (b ∷ bs)) else err invalid_format
